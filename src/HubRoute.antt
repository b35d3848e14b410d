-- ===== src/HubRoute.antt =====
-- routes.rs and hub_cache.rs: the routes of hub responses. A payload comes from the cache, or from
-- Plex, and goes through the transforms of rows on its way out.
pub mod Safety
pub mod Fetch
pub mod Routed
use replex.Prelude.{
  ℕ, ◌*◌, ◌==◌, ◌&&◌, Bool, true, false, not, ltb, Option, none, some, List, [], ◌∷◌, ◌++◌, map,
  filter, take, length, map_or, if◌then◌else◌,
}
use replex.Prelude.Int.{ℤ}
use replex.Prelude.Text.{Text, codes, starts_with, strip_prefix}
use replex.Cache.{Cache}
use replex.Config.{Config}
use replex.Metrics.{Metrics, cache_hit, cache_miss}
use replex.Identity.Answers.{Answer, unreachable, answered}
use replex.Metadata.{MetaData, MetaList, item_of, with_item, to_list, of_list}
use replex.Metadata.Children
use replex.Hub.{Hubs, hub_cache_key, is_stale, track_fetched}
use replex.CacheKeys.{cache_key_for_request, canonical_fetch_path}
use replex.Transform.{MediaContainer, Transform, apply_to, update_children}
use replex.Transform.Policy.{Situation, collection_visibility}
use replex.Transform.Hubs.{Collections, hub_restriction, hub_watched, user_state, hub_key, as_usize}
use replex.Transform.Interleave.{Itertools, hub_interleave}
use replex.Transform.Style.{HubContext, hub_style}

-- What Plex answers to a request for a path.
abbrev pub Upstream : Type 0
Upstream = Text → Answer MediaContainer

-- The payload of an answer of 200 that parses; all else is an error (502).
unfoldable pub payload_of : Answer MediaContainer → Option MediaContainer
payload_of unreachable = none
payload_of (answered status body) = if status == 200 then body else none

-- `replacen` of the first `/hubs/home`, of a path that starts with it.
abbrev pub fallback_path : Text → Text
fallback_path key_path =
    map_or (strip_prefix (codes "/hubs/home") key_path) key_path
      (λ rest. codes "/hubs/promoted" ++ rest)

unfoldable pub after_answer : Upstream → Text → Answer MediaContainer → Option MediaContainer
unfolding payload_of starts_with strip_prefix
after_answer get key_path unreachable = none
after_answer get key_path (answered status body) =
    if (status == 404) && starts_with (codes "/hubs/home") key_path
    then payload_of (get (fallback_path key_path))
    else payload_of (answered status body)

unfoldable pub fetch_hubs_payload : Upstream → Text → Option MediaContainer
unfolding after_answer
fetch_hubs_payload get key_path = after_answer get key_path (get key_path)

unfoldable pub continues_watching : MetaData → Bool
unfolding starts_with
continues_watching h = map_or (item_of h).hub_identifier false (starts_with (codes "home.continue"))

-- A row cut down to as many items as the client asked for.
unfoldable pub limit_row : ℤ → MetaData → MetaData
unfolding Children.children_mut Children.update_children
limit_row count hub =
    if ltb (as_usize count) (length (to_list (Children.children_mut hub)))
    then (let cut =
          Children.update_children (λ xs. of_list (take (as_usize count) (to_list xs))) hub in
        with_item cut (record (item_of cut) { size = some count }))
    else hub

abbrev limit_rows : Option ℤ → List MetaData → List MetaData
limit_rows none hubs = hubs
limit_rows (some count) hubs = map (limit_row count) hubs

unfoldable pub shape_canonical_hubs : HubContext → MediaContainer → MediaContainer
unfolding update_children filter continues_watching limit_row
shape_canonical_hubs context c =
    update_children
      (λ hubs. limit_rows context.count (
        if context.exclude_continue_watching
        then filter (λ h. not (continues_watching h)) hubs
        else hubs))
      c

-- What the transforms of a request use besides the response.
pub record HubTools : Type 0 where
  pub config : Config
  pub plex : Collections
  pub itertools : Itertools
  pub situation : Situation
  pub context : HubContext

abbrev pub visibility : HubTools → Transform (Unit {0})
visibility tools = collection_visibility (Unit {0}) tools.situation

-- The transforms behind that of the account's policy, in the order of the code.
abbrev pub presentation : HubTools → List (Transform (Unit {0}))
presentation tools =
    hub_restriction tools.config tools.plex (Unit {0})
    ∷ hub_style tools.config.hero_rows tools.plex tools.context (Unit {0})
    ∷ hub_watched tools.config tools.plex (Unit {0})
    ∷ hub_interleave tools.itertools tools.config (Unit {0})
    ∷ user_state tools.config (Unit {0})
    ∷ hub_key (Unit {0})
    ∷ []

-- The end of `cached_hubs_response`: what is sent of a payload.
unfoldable pub present : HubTools → Bool → MediaContainer → MediaContainer
unfolding apply_to shape_canonical_hubs
present tools compatibility_passthrough container =
    let seen = (apply_to (Unit {0}) (visibility tools ∷ []) container tt).0 in
    if compatibility_passthrough
    then seen
    else shape_canonical_hubs tools.context (apply_to (Unit {0}) (presentation tools) seen tt).0

-- `transform_hubs_response`: `none` is an error, of the client or of a response that does not parse.
unfoldable pub transform_hubs_response :
    HubTools → Bool → Option MediaContainer → Option MediaContainer
transform_hubs_response tools false parsed = none
transform_hubs_response tools true none = none
transform_hubs_response tools true (some container) =
    some (apply_to (Unit {0}) (visibility tools ∷ presentation tools) container tt).0

-- What `cached_hubs_response` finds in the request. `get_query` is the decoded query.
pub record HubRequest : Type 0 where
  pub path : Text
  pub get_query : Text → Option Text
  pub token : Option Text
  pub compatibility_passthrough : Bool
  pub has_state : Bool
  pub has_client : Bool
  pub now : ℕ
  pub tools : HubTools

-- A background refresh that is started: the path to fetch and the key.
pub data Refresh : Type 0 where
  no_refresh : Refresh
  spawned : Text → Text → Refresh

module _ (fingerprint : Text → Text) (payloads : Cache Text MediaContainer) (times : Cache Text ℕ)
    (get : Upstream) where
  -- The hub cache, the counters, and the refreshes that have been spawned.
  pub record HubState : Type 0 where
    pub hubs : Hubs MediaContainer payloads times
    pub metrics : Metrics
    pub spawned_refreshes : List Refresh

  abbrev pub hub_key_path : HubRequest → Text
  hub_key_path req = cache_key_for_request req.path req.get_query

  abbrev pub request_key : HubRequest → Text
  request_key req = hub_cache_key fingerprint (hub_key_path req) req.token

  abbrev counted : HubRequest → (Metrics → Metrics) → HubState → HubState
  counted req count s = if req.has_state then record s { metrics = count s.metrics } else s

  -- A cached payload: it is served, and refreshed behind the scenes when it is too old.
  unfoldable pub hit : HubRequest → HubState → HubState
  unfolding is_stale canonical_fetch_path cache_key_for_request hub_cache_key
  hit req s =
      let ttl = req.tools.config.hub_stale_ttl in
      let stale =
        is_stale MediaContainer payloads times s.hubs (request_key req) (ttl * 1000000000)
          req.now in
      let counts = counted req cache_hit s in
      if ltb 0 ttl && stale
      then record counts {
        spawned_refreshes =
            spawned (canonical_fetch_path req.get_query (hub_key_path req)) (request_key req)
            ∷ counts.spawned_refreshes;
      }
      else counts

  -- A payload that was fetched goes into the cache, with its age.
  unfoldable pub store_fetched : HubRequest → MediaContainer → HubState → HubState
  unfolding track_fetched cache_key_for_request hub_cache_key
  store_fetched req payload s =
      let inserted : Hubs MediaContainer payloads times = record s.hubs {
        payloads = payloads.insert s.hubs.payloads (request_key req) payload;
      } in
      record s {
        hubs = track_fetched MediaContainer payloads times (request_key req) req.now inserted;
      }

  unfoldable pub after_fetch :
      HubRequest → Option MediaContainer → HubState → Option MediaContainer × HubState
  unfolding store_fetched
  after_fetch req none s = (none, s)
  after_fetch req (some payload) s = (some payload, store_fetched req payload s)

  -- The payload for a request, if there is one.
  unfoldable pub obtain : HubRequest → HubState → Option MediaContainer × HubState
  unfolding canonical_fetch_path cache_key_for_request hub_cache_key
  obtain req s = elim (payloads.lookup s.hubs.payloads (request_key req)) [
    | some cached ↦ (some cached, hit req s)
    | none ↦
        after_fetch req
          (fetch_hubs_payload get (canonical_fetch_path req.get_query (hub_key_path req)))
          (counted req cache_miss s)
  ]

  abbrev pub sent_of : HubRequest → Option MediaContainer → Option MediaContainer
  sent_of req none = none
  sent_of req (some payload) = some (present req.tools req.compatibility_passthrough payload)

  -- `none` is an error: without a client or a configuration, or where Plex has no payload.
  unfoldable pub cached_hubs_response : HubRequest → HubState → Option MediaContainer × HubState
  cached_hubs_response req s =
      let r = obtain req s in if req.has_client then (sent_of req r.0, r.1) else (none, s)
