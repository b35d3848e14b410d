-- ===== src/Config/Validate.antt =====
-- config.rs: the check of the configuration at start-up (`validate`).
pub mod Sound
use replex.Prelude.{
  ℕ, ◌-◌, ◌*◌, ◌^◌, ◌&&◌, ◌||◌, ◌==◌, Bool, true, false, not, ltb, leb, Option, none, some, List,
  [], ◌∷◌, is_empty, is_some, map_or, unwrap_or, if◌then◌else◌,
}
use replex.Prelude.Int.{ℤ, pos, leb_ℤ}
use replex.Prelude.Text.{Text, codes, trim}
use replex.Prelude.Text.Decimal.{parse_usize}
use replex.Policy.Entries.{PolicyEntry}
use replex.Config.{Config}
use replex.Config.Upstream.{UrlLibrary, is_base}

pub data ConfigValidationError : Type 0 where
  missing_host : ConfigValidationError
  invalid_base_url : Text → Text → ConfigValidationError
  invalid_port : ℕ → ConfigValidationError
  missing_ssl_domain : ConfigValidationError
  invalid_client_identity_binding : ConfigValidationError
  invalid_policy_identity : ConfigValidationError
  invalid_bitrate : ℤ → ConfigValidationError
  invalid_disk_cache_size : Text → ConfigValidationError

-- `Result<(), ConfigValidationError>`
pub data Checked : Type 0 where
  ok : Checked
  err : ConfigValidationError → Checked

infixr 3 ◌andthen◌
-- `?`: the first error ends the check.
abbrev pub ◌andthen◌ : Checked → Checked → Checked
ok andthen rest = rest
err e andthen rest = err e

abbrev pub each {ℓ} : {A : Type ℓ} → (A → Checked) → List A → Checked
each check [] = ok
each check (x ∷ xs) = check x andthen each check xs

abbrev pub if_some {ℓ} : {A : Type ℓ} → (A → Checked) → Option A → Checked
if_some check none = ok
if_some check (some x) = check x

abbrev pub blank : Text → Bool
blank s = is_empty (trim s)

module _ (url : UrlLibrary) where
  unfoldable pub validate_base_url : Text → Text → Checked
  unfolding is_base
  validate_base_url field value =
      if map_or (url.parse value) false (is_base url)
      then ok
      else err (invalid_base_url field value)

unfoldable pub validate_port : ℕ → Checked
validate_port port = if port == 0 || ltb (2 ^ 16 - 1) port then err (invalid_port port) else ok

unfoldable pub validate_binding : Text × Text → Checked
unfolding trim
validate_binding binding =
    if blank binding.0 || blank binding.1 then err invalid_client_identity_binding else ok

unfoldable pub validate_policy : PolicyEntry → Checked
unfolding trim
validate_policy policy =
    if map_or policy.username false blank || map_or policy.uuid false blank
    then err invalid_policy_identity
    else if map_or policy.max_bitrate false (λ b. leb_ℤ b (pos 0))
    then err (invalid_bitrate (unwrap_or policy.max_bitrate (pos 0)))
    else ok

-- `REPLEX_DISK_CACHE_MAX_GB`; `checked_mul` fails on a product beyond 64 bits.
unfoldable pub validate_disk_size : Text → Checked
unfolding trim parse_usize
validate_disk_size raw = elim (parse_usize (trim raw)) [
  | none ↦ err (invalid_disk_cache_size raw)
  | some gb ↦
      if gb == 0 || leb (2 ^ 64) (gb * 1073741824) then err (invalid_disk_cache_size raw) else ok
]

module _ (url : UrlLibrary) where
  unfoldable pub validate_hosts : Config → Text → Checked
  unfolding validate_base_url
  validate_hosts config host =
      validate_base_url url (codes "REPLEX_HOST") host
      andthen if_some (validate_base_url url (codes "REPLEX_REDIRECT_STREAMS_HOST"))
          config.redirect_streams_host
      andthen each (validate_base_url url (codes "REPLEX_ALLOWED_UPSTREAM_HOSTS"))
          (unwrap_or config.allowed_upstream_hosts [])
      andthen if_some (validate_base_url url (codes "REPLEX_IDENTITY_API_BASE"))
          config.identity_api_base

  -- `disk_size` is the environment's, if it is set.
  unfoldable pub validate : Config → Option Text → Checked
  unfolding validate_hosts validate_port validate_binding validate_policy validate_disk_size trim
  validate config disk_size =
      map_or config.host (err missing_host) (validate_hosts config)
      andthen if_some validate_port config.port
      andthen (if config.ssl_enable && map_or config.ssl_domain true blank
          then err missing_ssl_domain
          else ok)
      andthen each validate_binding config.client_identity_map
      andthen each validate_policy config.user_resolution_policies
      andthen if_some validate_disk_size disk_size
