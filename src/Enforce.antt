-- ===== src/Enforce.antt =====
-- routes.rs `enforce_resolution_policy`: the account's limits on playback requests, before any other
-- hoop selects a version.
pub mod Cap
pub mod Pinning
use replex.Prelude.{
  ℕ, ◌≡◌, Bool, true, false, not, ◌&&◌, Option, none, some, List, [], ◌∷◌, is_some, is_empty,
  map_or, or_else, and_then, get_elem?, position, if◌then◌else◌,
}
use replex.Prelude.Int.{ℤ, ltb_ℤ, leb_ℤ, min_ℤ}
use replex.Prelude.Text.{Text, codes, text_eq}
use replex.Prelude.Text.Decimal.{show, show_i64, parse_usize, parse_i64}
use replex.Media.{Media}
use replex.Policy.Entries.{ResolutionPolicy, is_unrestricted}
use replex.Policy.Classify.{media_allowed}
use replex.Policy.Select.{best_allowed_media}
use replex.Policy.Snapshot.{PolicySnapshot}
use replex.Cache.{Cache}
use replex.Parts.{PartMediaClassification, cache_part_classification}
use replex.Metrics.{Metrics, policy_reject}
use replex.Security.{SecurityContextState, resolved, unavailable, Lookup, found, failed, policy_of}
use replex.Queries.{Queries, put, replace_query}

-- The answer to `get_item_by_key`: an error, or the versions of the first metadata, if there is one.
pub data ItemLookup : Type 0 where
  item_error : ItemLookup
  item : Option (List Media) → ItemLookup

-- What the handler finds in the depot and the request, and what Plex answers it.
pub record PlaybackRequest : Type 0 where
  pub has_state : Bool
  pub runtime : PolicySnapshot
  pub has_context : Bool
  pub has_client : Bool
  pub uri_parses : Bool
  pub security : Option SecurityContextState
  pub user : Lookup
  pub screen : Option (ℤ × ℤ)
  pub get_item : Text → ItemLookup

abbrev pub key_path : Text
key_path = codes "path"

abbrev pub key_index : Text
key_index = codes "mediaIndex"

abbrev pub key_max_bitrate : Text
key_max_bitrate = codes "maxVideoBitrate"

abbrev pub key_bitrate : Text
key_bitrate = codes "videoBitrate"

-- Whether the requested version is one of the item's and within the policy.
abbrev pub index_allowed : ResolutionPolicy → List Media → Option ℕ → Bool
index_allowed policy media none = false
index_allowed policy media (some i) = map_or (get_elem? media i) false (λ m. media_allowed m policy)

abbrev pub same_id : Media → Media → Bool
same_id best m = leb_ℤ m.id best.id && leb_ℤ best.id m.id

module _ (q : Queries) (cache : Cache ℤ PartMediaClassification) where
  open q use {Map, get, remove, insert}

  -- What the handler leaves behind. `refused` is the status it sets before it skips the rest.
  pub record Playback : Type 0 where
    pub queries : Map
    pub refused : Option ℕ
    pub parts : cache.Store
    pub metrics : Metrics

  -- The bitrate that a request asks for.
  unfoldable pub requested_bitrate : Map → Option ℤ
  requested_bitrate m = and_then (or_else (get m key_max_bitrate) (get m key_bitrate)) parse_i64

  unfoldable pub cap_bitrate : PlaybackRequest → ℤ → Map → Map
  unfolding requested_bitrate
  cap_bitrate req cap m =
      let current = requested_bitrate m in
      let effective = map_or current cap (λ c. min_ℤ c cap) in
      if map_or current true (λ c. ltb_ℤ effective c)
      then replace_query q req.uri_parses
          (insert (remove (remove m key_bitrate) key_max_bitrate) key_max_bitrate
            (show_i64 effective))
          m
      else m

  abbrev pub with_cap : PlaybackRequest → Option ℤ → Map → Map
  with_cap req none m = m
  with_cap req (some cap) m = cap_bitrate req cap m

  -- `queries.get("mediaIndex").filter(|v| v != "-1").and_then(parse)`
  unfoldable pub requested_index : Map → Option ℕ
  requested_index m =
      and_then (get m key_index) (λ v. if text_eq v (codes "-1") then none else parse_usize v)

  -- The best permitted version is pinned, or the request is rejected.
  unfoldable pub pin_best : PlaybackRequest → ResolutionPolicy → List Media → Playback → Playback
  pin_best req policy media s = elim (best_allowed_media media policy req.screen) [
    | some best ↦ elim (position (same_id best) media) [
      | some i ↦ record s {
        queries = replace_query q req.uri_parses (put q s.queries key_index (show i)) s.queries;
      }
      | none ↦ s
    ]
    | none ↦ record s { refused = some 403; metrics = policy_reject s.metrics }
  ]

  unfoldable pub select_version :
      PlaybackRequest → ResolutionPolicy → List Media → Playback → Playback
  unfolding pin_best requested_index
  select_version req policy media s =
      let t = record s { parts = cache_part_classification cache s.parts media } in
      if index_allowed policy media (requested_index s.queries)
      then t
      else pin_best req policy media t

  -- A failure to load the item refuses the request where the policy says to fail closed.
  unfoldable pub with_item : PlaybackRequest → ResolutionPolicy → ItemLookup → Playback → Playback
  unfolding select_version
  with_item req policy item_error s =
      if req.runtime.fail_closed then record s { refused = some 503 } else s
  with_item req policy (item none) s =
      if req.runtime.fail_closed then record s { refused = some 502 } else s
  with_item req policy (item (some media)) s =
      if is_empty media then s else select_version req policy media s

  unfoldable pub enforce_under : PlaybackRequest → ResolutionPolicy → Playback → Playback
  unfolding with_item cap_bitrate
  enforce_under req policy s =
      let t = record s { queries = with_cap req policy.max_bitrate s.queries } in
      let limited : Playback = elim (get t.queries key_path) [
        | none ↦ t
        | some path ↦ with_item req policy (req.get_item path) t
      ] in
      if is_unrestricted policy && not (is_some policy.max_bitrate)
      then s
      else if is_unrestricted policy
      then t
      else limited

  -- `none` is the error that the handler returns.
  unfoldable pub enforce_resolution_policy : PlaybackRequest → Playback → Option Playback
  unfolding enforce_under
  enforce_resolution_policy req s =
      if not req.has_state
      then none
      else if not req.runtime.enabled
      then some s
      else if not req.has_context
      then none
      else if not req.has_client
      then none
      else (elim req.security [
        | some (resolved security) ↦ some (enforce_under req security.policy s)
        | some (unavailable fail_closed reason) ↦
            if fail_closed then some (record s { refused = some 503 }) else some s
        | none ↦ elim req.user [
          | found r ↦ some (enforce_under req (policy_of req.runtime r.identity) s)
          | failed reason ↦ none
        ]
      ])
