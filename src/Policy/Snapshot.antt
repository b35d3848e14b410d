-- ===== src/Policy/Snapshot.antt =====
-- policy_store.rs: the snapshot of the policy settings in force, and its reload. The lock makes each
-- operation one step on the store.
use replex.Prelude.{ℕ, ◌+◌, ◌%◌, ◌^◌, ◌<◌, ◌≡◌, Bool, List, [], ◌∷◌, arith, unwrap_or, length}
use replex.Prelude.Text.{Text}
use replex.Config.{Config}
use replex.Policy.Limit.{ResolutionLimit}
use replex.Policy.Entries.{PolicyEntry}

pub record PolicySnapshot : Type 0 where
  pub enabled : Bool
  pub entries : List PolicyEntry
  pub default_limit : ResolutionLimit
  pub fail_closed : Bool
  pub hidden_collections : List Text
  pub generation : ℕ

unfoldable pub from_config : Config → ℕ → PolicySnapshot
from_config config generation = record {
  enabled = config.resolution_policy_enabled;
  entries = config.user_resolution_policies;
  default_limit = config.resolution_default;
  fail_closed = config.resolution_policy_fail_closed;
  hidden_collections = unwrap_or config.hidden_collections [];
  generation = generation;
}

-- The store starts at generation 1.
unfoldable pub new : Config → PolicySnapshot
unfolding from_config
new config = from_config config 1

-- The new snapshot, which is both stored and returned.
unfoldable pub reload : PolicySnapshot → Config → PolicySnapshot
unfolding from_config
reload current config = from_config config ((current.generation + 1) % 2 ^ 64)

unfoldable pub reload_all : PolicySnapshot → List Config → PolicySnapshot
unfolding reload
reload_all s [] = s
reload_all s (config ∷ configs) = reload_all (reload s config) configs

-- After any reloads the generation tells their number, as far as 64 bits can.
pub generation-reload_all :
    (s : PolicySnapshot) (configs : List Config)
    → s.generation < 2 ^ 64
    → (reload_all s configs).generation ≡ (s.generation + length configs) % 2 ^ 64
unfolding reload_all
generation-reload_all s [] h = omega arith
generation-reload_all s (config ∷ configs) h =
    omega (arith, generation-reload_all (reload s config) configs (omega arith))
