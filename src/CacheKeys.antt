-- ===== src/CacheKeys.antt =====
-- routes.rs: the keys of cached library payloads, artwork and hubs. Parsing and printing a URL is not
-- part of the repository (`url`).
pub mod Library
pub mod Selections
pub mod Encoding
pub mod Sharing
use replex.Prelude.{
  ℕ, ◌-◌, ◌==◌, Bool, true, false, not, ◌&&◌, ◌||◌, ◌≡◌, Option, none, some, List, [], ◌∷◌, ◌++◌,
  map, filter, find, any, is_empty, map_or, or_else, and_then, unwrap_or, length, drop, take, head,
  if◌then◌else◌,
}
use replex.Prelude.Sorted.{sort, leb_text, leb_pair}
use replex.Prelude.Text.{
  Text, codes, text_eq, ascii_lower, eq_ignore_ascii_case, starts_with, split, trim, to_lowercase,
}
use replex.Identity.Xml.{cut_at, cut_on}
use replex.Hub.{token_scope}

abbrev pub Pairs : Type 0
Pairs = List (Text × Text)

-- `parse` reads a path and query behind a fixed host, with the decoded pairs of the query; `print`
-- puts the URL together again, `print_path` without the host.
pub record Urls : Type 0 where
  pub parse : Text → Option (Text × Pairs)
  pub print : Text → Pairs → Text
  pub print_path : Text → Pairs → Text
  pub is_uri : Text → Bool

abbrev pub to_ascii_lowercase : Text → Text
to_ascii_lowercase s = map ascii_lower s

abbrev pub is_token : Text → Bool
is_token name = eq_ignore_ascii_case name (codes "x-plex-token")

-- `join` with a separator.
unfoldable pub join : Text → List Text → Text
join sep [] = []
join sep (p ∷ []) = p
join sep (p ∷ r ∷ ps) = p ++ (sep ++ join sep (r ∷ ps))

unfoldable pub is_library_fetch_shaping : Text → Bool
unfolding text_eq ascii_lower
is_library_fetch_shaping name =
    let lower = to_ascii_lowercase name in
    text_eq lower (codes "includefields")
    || text_eq lower (codes "excludefields")
    || text_eq lower (codes "includegeolocation")

unfoldable pub is_library_key_noise : Text → Bool
unfolding text_eq ascii_lower starts_with is_library_fetch_shaping
is_library_key_noise name =
    let lower = to_ascii_lowercase name in
    if text_eq lower (codes "x-plex-container-start")
      || text_eq lower (codes "x-plex-container-size")
    then false
    else starts_with (codes "x-plex-") lower
      || (text_eq lower (codes "includefields")
          || text_eq lower (codes "excludefields")
          || text_eq lower (codes "includegeolocation"))

-- The pairs that a library key keeps.
unfoldable pub library_pairs : Pairs → Pairs
unfolding is_library_key_noise filter ascii_lower
library_pairs ps =
    map (λ p. (to_ascii_lowercase p.0, p.1)) (filter (λ p. not (is_library_key_noise p.0)) ps)

module _ (urls : Urls) (fingerprint : Text → Text) where
  unfoldable pub canonical_library_path : Text → Text
  unfolding library_pairs sort
  canonical_library_path raw =
      map_or (urls.parse raw) (codes "library:" ++ raw)
        (λ u. codes "library:" ++ urls.print u.0 (sort leb_pair (library_pairs u.1)))

  unfoldable pub library_cache_key_for : Text → Option Text → Text
  unfolding canonical_library_path token_scope
  library_cache_key_for raw token =
      codes "library:u:" ++ (token_scope fingerprint token ++ b':' ∷ canonical_library_path raw)

  -- The request that a miss sends on.
  unfoldable pub normalize_library_fetch : Text → Text
  unfolding is_library_fetch_shaping filter
  normalize_library_fetch raw = map_or (urls.parse raw) raw (λ u.
      let new = urls.print_path u.0 (filter (λ p. not (is_library_fetch_shaping p.0)) u.1) in
      if urls.is_uri new then new else raw)

  -- The token of a nested URL.
  unfoldable pub extract_inner_token : Text → Option Text
  unfolding cut_on cut_at ascii_lower
  extract_inner_token value =
      let marker = codes "x-plex-token=" in
      and_then (cut_on marker (to_ascii_lowercase value)) (λ c.
        let remainder = drop (length value - length c.1) value in
        let until_amp = map_or (cut_at b'&' remainder) remainder (λ r. r.0) in
        let token = map_or (cut_at b'#' until_amp) until_amp (λ r. r.0) in
        if is_empty token then none else some token)

  unfoldable pub keeps_pair : Text → Bool
  unfolding cut_at eq_ignore_ascii_case
  keeps_pair pair = not (map_or (cut_at b'=' pair) false (λ r. is_token r.0))

  unfoldable pub strip_inner_token : Text → Text
  unfolding cut_at keeps_pair filter split join
  strip_inner_token v = map_or (cut_at b'?' v) v (λ c.
      let kept = filter keeps_pair (split b'&' c.1) in
      if is_empty kept then c.0 else c.0 ++ b'?' ∷ join (codes "&") kept)

  unfoldable pub photo_pairs : Pairs → Pairs
  unfolding strip_inner_token filter eq_ignore_ascii_case text_eq
  photo_pairs ps =
      map (λ p. if text_eq p.0 (codes "url") then (p.0, strip_inner_token p.1) else p)
        (filter (λ p. not (is_token p.0)) ps)

  unfoldable pub canonical_photo_key : Text → Text
  unfolding photo_pairs
  canonical_photo_key raw =
      map_or (urls.parse raw) (codes "photo:" ++ raw)
        (λ u. codes "photo:" ++ urls.print u.0 (photo_pairs u.1))

  unfoldable pub photo_cache_key_for : Text → Option Text → Text
  unfolding canonical_photo_key token_scope
  photo_cache_key_for raw token =
      codes "photo:u:" ++ (token_scope fingerprint token ++ b':' ∷ canonical_photo_key raw)

  -- The header's token, else that of the query.
  unfoldable pub request_token : Option Text → Pairs → Option Text
  unfolding find eq_ignore_ascii_case
  request_token header queries =
      or_else header (map_or (find (λ p. is_token p.0) queries) none (λ p. some p.1))

  unfoldable pub photo_request_token : Option Text → Pairs → Option Text
  unfolding request_token find eq_ignore_ascii_case extract_inner_token
  photo_request_token header queries = or_else (request_token header queries) (
      and_then (find (λ p. eq_ignore_ascii_case p.0 (codes "url")) queries)
        (λ p. extract_inner_token p.1))

-- Hubs: the ids of a selection, in one order.
unfoldable pub canonical_ids : Text → Text
unfolding split trim filter sort join
canonical_ids v =
    if any (λ c. c == b',') v
    then join (codes ",") (sort leb_text (filter (λ s. not (is_empty s)) (map trim (split b',' v))))
    else v

abbrev pub selection_names : List Text
selection_names =
    codes "contentDirectoryID"
    ∷ codes "pinnedContentDirectoryID"
    ∷ codes "X-Plex-Container-Start"
    ∷ codes "X-Plex-Container-Size"
    ∷ []

-- The parameters that are there, each by its name or that in lower case.
unfoldable pub picked : (Text → Option Text) → List Text → Pairs
unfolding canonical_ids ascii_lower
picked get [] = []
picked get (name ∷ names) =
    let rest = picked get names in
    map_or (or_else (get name) (get (to_ascii_lowercase name))) rest
      (λ v. (name, canonical_ids v) ∷ rest)

unfoldable pub selection_parts : (Text → Option Text) → Pairs
unfolding picked sort leb_text
selection_parts get = sort (λ a b. leb_text a.0 b.0) (picked get selection_names)

unfoldable pub cache_key_for_request : Text → (Text → Option Text) → Text
unfolding selection_parts join to_lowercase
cache_key_for_request path get =
    let parts = selection_parts get in
    if is_empty parts
    then path
    else path ++ b'?' ∷ join (codes "&") (map (λ p. to_lowercase p.0 ++ b'=' ∷ p.1) parts)

unfoldable pub canonical_fetch_path : (Text → Option Text) → Text → Text
unfolding selection_parts join any starts_with cut_at
canonical_fetch_path get key_path =
    let asked = map (λ p. p.0 ++ b'=' ∷ p.1) (selection_parts get) in
    let with_guids =
      if any (starts_with (codes "includeGuids")) asked
      then asked
      else asked ++ codes "includeGuids=1" ∷ [] in
    let with_count =
      if any (starts_with (codes "count=")) with_guids
      then with_guids
      else with_guids ++ codes "count=50" ∷ [] in
    map_or (cut_at b'?' key_path) key_path (λ r. r.0) ++ b'?' ∷ join (codes "&") with_count
