-- ===== src/LibraryCache.antt =====
-- routes.rs: library payloads on disk, which pass the policy transforms of the account again whenever
-- they are served.
pub mod Safety
use replex.Prelude.{ℕ, Bool, true, false, not, Option, none, some, List, is_empty, if◌then◌else◌}
use replex.Prelude.Int.{ℤ}
use replex.Prelude.Text.{Text, codes, starts_with}
use replex.Cache.{Cache}
use replex.Parts.{PartMediaClassification}
use replex.Metrics.{Metrics, cache_hit, cache_miss}
use replex.Disk.{CacheRecord}
use replex.Disk.Files.{Directory, Io, remove, get_full, put_full}
use replex.Transform.{MediaContainer}
use replex.Transform.Policy.{Situation, apply_policy_transforms}
use replex.CacheKeys.{Urls, library_cache_key_for, normalize_library_fetch}

-- What the handlers find in the request. `parse` reads a body as a response.
pub record LibraryRequest : Type 0 where
  pub path : Text
  pub raw : Text
  pub token : Option Text
  pub has_state : Bool
  pub has_client : Bool
  pub situation : Situation
  pub io : Io
  pub parse : List ℕ → Option MediaContainer

-- What goes out, or the request that goes on to Plex.
pub data LibraryReply : Type 0 where
  served : MediaContainer → LibraryReply
  passed_on : Text → LibraryReply

module _ (urls : Urls) (fingerprint path_for_key : Text → Text)
    (cache : Cache ℤ PartMediaClassification) where
  pub record Shared : Type 0 where
    pub directory : Directory
    pub parts : cache.Store
    pub metrics : Metrics

  abbrev pub is_section : LibraryRequest → Bool
  is_section req = starts_with (codes "/library/sections/") req.path

  abbrev pub library_key : LibraryRequest → Text
  library_key req = library_cache_key_for urls fingerprint req.raw req.token

  -- `library_cache_key` is `library_cache_key_for` of the request. A miss asks Plex for all fields.
  unfoldable pub missed : LibraryRequest → Shared → LibraryReply × Shared
  unfolding normalize_library_fetch
  missed req s = (
    passed_on (normalize_library_fetch urls fingerprint req.raw),
    if req.has_state then record s { metrics = cache_miss s.metrics } else s,
  )

  unfoldable pub after_policy :
      LibraryRequest → Option (MediaContainer × cache.Store) → Shared → LibraryReply × Shared
  unfolding missed remove
  after_policy req none s =
      missed req
        (record s { directory = remove req.io (path_for_key (library_key req)) s.directory })
  after_policy req (some r) s = (served r.0, record s { parts = r.1 })

  unfoldable pub on_disk : LibraryRequest → Shared → Option CacheRecord → LibraryReply × Shared
  unfolding missed after_policy apply_policy_transforms
  on_disk req s none = missed req s
  on_disk req s (some r) =
      after_policy req
        (apply_policy_transforms cache req.situation (req.parse r.body) req.has_client s.parts)
        (if req.has_state then record s { metrics = cache_hit s.metrics } else s)

  unfoldable pub library_cache_lookup : LibraryRequest → Shared → LibraryReply × Shared
  unfolding on_disk get_full starts_with library_cache_key_for
  library_cache_lookup req s =
      let r = get_full path_for_key req.io (library_key req) s.directory in
      if not (is_section req)
      then (passed_on req.raw, s)
      else on_disk req (record s { directory = r.1 }) r.0

  -- `body` is the body of Plex's answer, if it can be read.
  unfoldable pub library_cache_store :
      LibraryRequest → ℕ → Bool → Option (List ℕ) → Directory → Directory
  unfolding put_full starts_with library_cache_key_for
  library_cache_store req max success none d = d
  library_cache_store req max success (some bytes) d =
      if not (is_section req)
      then d
      else if not success
      then d
      else if is_empty bytes
      then d
      else (put_full path_for_key req.io max (library_key req) bytes none d).0
