-- ===== src/Config/Upstream.antt =====
-- config.rs: which addresses of Plex servers the configuration approves. Reading and printing a URL
-- is not part of the repository (`url`).
pub mod Enough
use replex.Prelude.{
  ℕ, zero, suc, ◌≡◌, ◌≢◌, ◌&&◌, ◌||◌, ◌==◌, Bool, true, false, not, ltb, Option, none, some, List,
  [], ◌∷◌, ◌++◌, any, length, is_some, map_or, unwrap_or, and_then, if◌then◌else◌,
}
use mathlib.Core.List.{reverse}
use replex.Prelude.Text.{Text, codes, text_eq, ends_with}
use replex.Config.{Config}

-- The accessors are those of `url::Url`. A path that was trimmed is what it is set to, and an empty
-- one is `/`.
abbrev drop_slashes : Text → Text
drop_slashes [] = []
drop_slashes (c ∷ s) = let rest = drop_slashes s in if c == b'/' then rest else c ∷ s

-- `trim_end_matches('/')`
unfoldable pub trim_slashes : Text → Text
trim_slashes s = reverse (drop_slashes (reverse s))

pub record UrlLibrary : Type 1 where
  pub Url : Type 0
  pub parse : Text → Option Url
  pub scheme : Url → Text
  pub host_str : Url → Option Text
  pub path : Url → Text
  pub query : Url → Option Text
  pub fragment : Url → Option Text
  pub set_path : Text → Url → Url
  pub print : Url → Text
  pub path-set_path :
      (u : Url)
      → trim_slashes (path u) ≢ []
      → path (set_path (trim_slashes (path u)) u) ≡ trim_slashes (path u)
  pub path-set_path_empty : (u : Url) → path (set_path [] u) ≡ codes "/"

module _ (url : UrlLibrary) where
  unfoldable pub is_web : url.Url → Bool
  unfolding text_eq
  is_web u = text_eq (url.scheme u) (codes "http") || text_eq (url.scheme u) (codes "https")

  -- An address without a query and a fragment, of a host.
  unfoldable pub is_base : url.Url → Bool
  unfolding is_web
  is_base u =
      is_web u
      && is_some (url.host_str u)
      && not (is_some (url.query u))
      && not (is_some (url.fragment u))

  unfoldable pub has_trailing : url.Url → Bool
  unfolding ends_with
  has_trailing u = ltb 1 (length (url.path u)) && ends_with (codes "/") (url.path u)

  -- The loop that trims the path, a unit of fuel for each turn.
  unfoldable pub trim_path : ℕ → url.Url → url.Url
  unfolding has_trailing trim_slashes
  trim_path zero u = u
  trim_path (suc fuel) u =
      let next = trim_path fuel (url.set_path (trim_slashes (url.path u)) u) in
      if has_trailing u then next else u

  unfoldable pub normalize_base_url : Text → Option Text
  unfolding is_base trim_path trim_slashes
  normalize_base_url value =
      and_then (url.parse value)
        (λ u. if is_base u then some (trim_slashes (url.print (trim_path 1 u))) else none)

  unfoldable pub upstream_matches_allowlist : Text → List Text → Bool
  unfolding normalize_base_url any text_eq
  upstream_matches_allowlist candidate allowed =
      map_or (normalize_base_url candidate) false
        (λ c. any (λ a. map_or (normalize_base_url a) false (λ n. text_eq n c)) allowed)

abbrev pub optional : Option Text → List Text
optional none = []
optional (some t) = t ∷ []

-- The addresses that the configuration names.
unfoldable pub approved : Config → List Text
approved config =
    optional config.host
    ++ (optional config.redirect_streams_host ++ unwrap_or config.allowed_upstream_hosts [])

unfoldable pub allows_upstream_host : UrlLibrary → Config → Text → Bool
unfolding upstream_matches_allowlist approved
allows_upstream_host url config candidate =
    upstream_matches_allowlist url candidate (approved config)
