-- ===== src/Config.antt =====
-- config.rs: the settings that the modelled code reads, with their names there. The maps are
-- association lists.
pub mod Upstream
pub mod Validate
use replex.Prelude.{ℕ, Bool, Option, none, List}
use replex.Prelude.Text.{Text}
use replex.Policy.Limit.{ResolutionLimit}
use replex.Policy.Entries.{PolicyEntry}

-- A token's account, and in the detailed form the one client that may use it.
pub data TokenIdentityBinding : Type 0 where
  by_name : Text → TokenIdentityBinding
  detailed : Text → Option Text → TokenIdentityBinding

abbrev pub username : TokenIdentityBinding → Text
username (by_name u) = u
username (detailed u c) = u

abbrev pub client_identifier : TokenIdentityBinding → Option Text
client_identifier (by_name u) = none
client_identifier (detailed u c) = c

pub record Config : Type 0 where
  pub host : Option Text
  pub token : Option Text
  pub interleave : Bool
  pub hub_restrictions : Bool
  pub exclude_watched : Bool
  pub hub_stale_ttl : ℕ
  pub warm_tokens : Option (List Text)
  pub disable_user_state : Bool
  pub disable_leaf_count : Bool
  pub redirect_streams : Bool
  pub video_transcode_fallback_for : Option (List Text)
  pub resolution_policy_enabled : Bool
  pub user_resolution_policies : List PolicyEntry
  pub resolution_default : ResolutionLimit
  pub resolution_policy_fail_closed : Bool
  pub allow_username_fallback : Bool
  pub token_identity_map : List (Text × TokenIdentityBinding)
  pub client_identity_map : List (Text × Text)
  pub hidden_collections : Option (List Text)
  pub hero_rows : Option (List Text)
  pub warm_interval : ℕ
  pub redirect_streams_host : Option Text
  pub allowed_upstream_hosts : Option (List Text)
  pub identity_api_base : Option Text
  pub port : Option ℕ
  pub ssl_enable : Bool
  pub ssl_domain : Option Text
