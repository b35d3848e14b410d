-- ===== src/Policy/Entries.antt =====
-- The configured entries, the identity of an account, and `resolve_policy`.
pub mod Resolve
use replex.Prelude.{
  Bool, true, false, not, Option, none, some, List, [], filter, find, any, map_or, and_then,
}
use replex.Prelude.Int.{ℤ}
use replex.Prelude.Text.{Text, text_eq, is_text}
use replex.Policy.Limit.{ResolutionLimit, unlimited, is_unlimited}

pub record PolicyEntry : Type 0 where
  pub username : Option Text
  pub uuid : Option Text
  pub max_resolution : ResolutionLimit
  pub max_bitrate : Option ℤ
  pub visible_collections : List Text

pub record UserIdentity : Type 0 where
  pub id : ℤ
  pub uuid : Text
  pub username : Text

pub data IdentitySource : Type 0 where
  verified_plex shared_resource shared_server token_fingerprint : IdentitySource
  legacy_client_identifier username_fallback : IdentitySource

pub record ResolvedIdentity : Type 0 where
  pub identity : UserIdentity
  pub source : IdentitySource

pub record ResolutionPolicy : Type 0 where
  pub limit : ResolutionLimit
  pub max_bitrate : Option ℤ
  pub hidden_collections : List Text

abbrev pub unrestricted : ResolutionPolicy
unrestricted = record { limit = unlimited; max_bitrate = none; hidden_collections = [] }

abbrev pub is_unrestricted : ResolutionPolicy → Bool
is_unrestricted p = is_unlimited p.limit

-- The two searches of `resolve_policy`: by uuid first, then by user name.
abbrev pub by_uuid : UserIdentity → PolicyEntry → Bool
by_uuid who p = is_text p.uuid who.uuid

abbrev pub by_username : UserIdentity → PolicyEntry → Bool
by_username who p = is_text p.username who.username

unfoldable pub matched_entry : List PolicyEntry → UserIdentity → Option PolicyEntry
matched_entry policies who = elim (find (by_uuid who) policies) [
  | some p ↦ some p
  | none ↦ find (by_username who) policies
]

-- `visible.contains(title)`
abbrev pub listed : List Text → Text → Bool
listed titles title = any (λ t. text_eq t title) titles

unfoldable pub resolve_policy :
    List PolicyEntry → ResolutionLimit → List Text → UserIdentity → ResolutionPolicy
unfolding matched_entry
resolve_policy policies default_limit hidden who =
    let matched = matched_entry policies who in
    let visible = map_or matched [] (λ p. p.visible_collections) in
    record {
      limit = map_or matched default_limit (λ p. p.max_resolution);
      max_bitrate = and_then matched (λ p. p.max_bitrate);
      hidden_collections = filter (λ title. not (listed visible title)) hidden;
    }
