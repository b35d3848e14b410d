-- ===== src/Hub.antt =====
-- hub_cache.rs: the keys of the cached hub payloads, their age, and the background refresh.
pub mod Keys
pub mod SingleFlight
use replex.Prelude.{
  ℕ, ◌-◌, ◌||◌, ◌&&◌, ◌==◌, Bool, true, false, not, Option, none, some, List, [], ◌∷◌, ◌++◌, leb,
  ltb, if◌then◌else◌, take, any, filter, map_or, or_else, and_then,
}
use replex.Prelude.Text.{Text, codes, text_eq, starts_with, ends_with, split, strip_prefix, is_text}
use replex.Cache.{Cache}

-- account_scope.rs: `token_scope`. `fingerprint` is the hexadecimal SHA-256 digest of a token.
unfoldable pub token_scope : (Text → Text) → Option Text → Text
token_scope fingerprint none = codes "anon"
token_scope fingerprint (some token) = take 16 (fingerprint token)

-- Paths whose payload all accounts share.
unfoldable pub is_global : Text → Bool
unfolding starts_with
is_global key_path =
    starts_with (codes "/hubs/promoted") key_path || starts_with (codes "/hubs/home") key_path

unfoldable pub hub_cache_key : (Text → Text) → Text → Option Text → Text
unfolding is_global token_scope
hub_cache_key fingerprint key_path none =
    if is_global key_path
    then codes "hubcache:global:" ++ key_path
    else codes "hubcache:u:anon:" ++ key_path
hub_cache_key fingerprint key_path (some token) =
    if is_global key_path
    then codes "hubcache:global:" ++ key_path
    else codes "hubcache:u:" ++ (token_scope fingerprint (some token) ++ (codes ":" ++ key_path))

-- Times are nanoseconds on the monotonic clock; `duration_since` is 0 for a later instant.
unfoldable pub is_older_than : Option ℕ → ℕ → ℕ → Bool
is_older_than none max_age now = true
is_older_than (some t) max_age now = leb max_age (now - t)

-- `REFRESH_MIN_INTERVAL`
abbrev pub refresh_min_interval : ℕ
refresh_min_interval = 60000000000

-- A set of keys, as `HashSet` keeps it.
unfoldable pub member : Text → List Text → Bool
unfolding any text_eq
member k keys = any (text_eq k) keys

-- `HashSet::insert`: whether the key is new, and the set with it.
unfoldable pub insert_key : Text → List Text → Bool × List Text
unfolding member
insert_key k keys = if member k keys then (false, keys) else (true, k ∷ keys)

unfoldable pub remove_key : Text → List Text → List Text
unfolding filter text_eq
remove_key k keys = filter (λ j. not (text_eq j k)) keys

-- `iter().find_map(f)`
find_map : (Text → Option Text) → List Text → Option Text
find_map f [] = none
find_map f (x ∷ xs) = or_else (f x) (find_map f xs)

-- Does a proxied request change what the hubs show?
unfoldable pub is_playback_invalidation : Text → Option Text → Bool
unfolding ends_with split strip_prefix is_text find_map
is_playback_invalidation path query =
    if ends_with (codes "/:/scrobble") path || ends_with (codes "/:/unscrobble") path
    then true
    else if ends_with (codes "/:/timeline") path
    then is_text (and_then query (λ q. find_map (strip_prefix (codes "state=")) (split b'&' q)))
        (codes "stopped")
    else false

module _ (Payload : Type 0) (payload_cache : Cache Text Payload) (times : Cache Text ℕ) where
  pub record Hubs : Type 0 where
    pub payloads : payload_cache.Store
    pub fetched_at : times.Store
    pub last_attempt : times.Store
    pub inflight : List Text

  unfoldable pub is_stale : Hubs → Text → ℕ → ℕ → Bool
  unfolding is_older_than
  is_stale s cache_key max_age now = is_older_than (times.lookup s.fetched_at cache_key) max_age now

  unfoldable pub mark_all_hubs_stale : Hubs → Hubs
  mark_all_hubs_stale s = record s { fetched_at = times.invalidate_all s.fetched_at }

  unfoldable pub track_fetched : Text → ℕ → Hubs → Hubs
  track_fetched cache_key now s = record s { fetched_at = times.insert s.fetched_at cache_key now }

  -- `claim_refresh`: whether no refresh of the key is running, which it now is.
  unfoldable pub claim_refresh : Text → Hubs → Bool × Hubs
  unfolding insert_key
  claim_refresh cache_key s =
      let r = insert_key cache_key s.inflight in (r.0, record s { inflight = r.1 })

  -- What a task of `spawn_hub_refresh` does before it fetches, and whether it goes on.
  unfoldable pub begin_refresh : Text → ℕ → Hubs → Bool × Hubs
  unfolding claim_refresh
  begin_refresh cache_key now s =
      let recent =
        map_or (times.lookup s.last_attempt cache_key) false
          (λ t. ltb (now - t) refresh_min_interval) in
      let claim = claim_refresh cache_key s in
      let marked : Hubs = record claim.1 {
        last_attempt = times.insert s.last_attempt cache_key now;
      } in
      if recent then (false, s) else if claim.0 then (true, marked) else (false, claim.1)

  -- `refresh_hub_entry`, with the answer of `fetch_hubs_payload`.
  unfoldable pub refresh_hub_entry : Text → ℕ → Option Payload → Hubs → Hubs
  unfolding track_fetched
  refresh_hub_entry cache_key now none s = s
  refresh_hub_entry cache_key now (some payload) s =
      track_fetched cache_key now
        (record s { payloads = payload_cache.insert s.payloads cache_key payload })

  unfoldable pub end_refresh : Text → Hubs → Hubs
  unfolding remove_key
  end_refresh cache_key s = record s { inflight = remove_key cache_key s.inflight }
