-- ===== src/Security.antt =====
-- auth/context.rs and the request state of routes.rs: which requests get a security context, how it
-- is resolved, and the client that a handler builds from it.
pub mod Middleware
pub mod Request
use replex.Prelude.{ℕ, Bool, true, false, ◌||◌, Option, none, some, List, [], ◌∷◌, if◌then◌else◌}
use replex.Prelude.Int.{pos}
use replex.Prelude.Text.{Text, codes, text_eq, starts_with}
use replex.Policy.Entries.{
  UserIdentity, IdentitySource, ResolvedIdentity, ResolutionPolicy, resolve_policy, unrestricted,
}
use replex.Policy.Snapshot.{PolicySnapshot}

pub record RequestSecurityContext : Type 0 where
  pub identity : UserIdentity
  pub token_scope : Text
  pub policy : ResolutionPolicy
  pub identity_source : IdentitySource

-- `reason` is a text for the log.
pub data SecurityContextState : Type 0 where
  resolved : RequestSecurityContext → SecurityContextState
  unavailable : Bool → Text → SecurityContextState

unfoldable pub requires_security_context : Text → Bool
unfolding starts_with text_eq
requires_security_context path =
    starts_with (codes "/library/") path
    || starts_with (codes "/hubs/") path
    || text_eq path (codes "/hubs")
    || starts_with (codes "/playQueues") path
    || starts_with (codes "/video/") path

-- What a lookup of the account returns: the identity, or the text of the error.
pub data Lookup : Type 0 where
  found : ResolvedIdentity → Lookup
  failed : Text → Lookup

-- The policy of an identity under a snapshot.
abbrev pub policy_of : PolicySnapshot → UserIdentity → ResolutionPolicy
policy_of runtime who =
    resolve_policy runtime.entries runtime.default_limit runtime.hidden_collections who

-- The part of `PlexClient` that decides about policies, as `plex_client_from_depot` fills it in.
pub record Client : Type 0 where
  pub security_context : Option RequestSecurityContext
  pub security_unavailable_fail_closed : Option Bool

abbrev pub client_of : Option SecurityContextState → Client
client_of none = record { security_context = none; security_unavailable_fail_closed = none }
client_of (some (resolved security)) = record {
  security_context = some security;
  security_unavailable_fail_closed = none;
}
client_of (some (unavailable fail_closed reason)) = record {
  security_context = none;
  security_unavailable_fail_closed = some fail_closed;
}

-- The account of a request for which the policies are off.
abbrev pub no_identity : UserIdentity
no_identity = record { id = pos 0; uuid = []; username = [] }

-- transform/resolution_policy.rs `current_policy`. `lookup` is what `get_current_identity` returns;
-- it is asked only where there is no security context. `none` is the error.
unfoldable pub current_policy :
    PolicySnapshot → Client → Lookup → Option (ResolutionPolicy × UserIdentity)
current_policy runtime client lookup =
    if runtime.enabled
    then (elim client.security_context [
      | some security ↦ some (security.policy, security.identity)
      | none ↦ elim client.security_unavailable_fail_closed [
        | some fail_closed ↦ none
        | none ↦ elim lookup [
          | found r ↦ some (policy_of runtime r.identity, r.identity)
          | failed reason ↦ none
        ]
      ]
    ])
    else some (unrestricted, no_identity)
