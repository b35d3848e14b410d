-- ===== src/Security/Middleware.antt =====
-- `SecurityContextMiddleware`: the security state that a request carries into its handlers.
use replex.Prelude.{◌≡◌, ◌&&◌, Bool, true, false, Option, none, some, arith, if◌then◌else◌}
use replex.Prelude.Text.{Text}
use replex.Policy.Snapshot.{PolicySnapshot}
use replex.Security.{
  SecurityContextState, resolved, unavailable, requires_security_context, Lookup, found, failed,
  policy_of, client_of, current_policy,
}

-- The state for a protected request: `built` is the client, or the error of building it, and then
-- what its `get_current_identity` returns.
abbrev pub security_of : PolicySnapshot → Text → Lookup → SecurityContextState
security_of runtime token_scope (found r) = resolved (record {
  identity = r.identity;
  token_scope = token_scope;
  policy = policy_of runtime r.identity;
  identity_source = r.source;
})
security_of runtime token_scope (failed reason) = unavailable runtime.fail_closed reason

-- `app_state` and `request` say whether the depot has them: without either the request ends with
-- 500, `none`. `before` is the state that the depot held.
unfoldable pub handle :
    Bool
    → Option Text
    → PolicySnapshot
    → Text
    → Lookup
    → Option SecurityContextState
    → Option (Option SecurityContextState)
unfolding requires_security_context
handle false request runtime path lookup before = none
handle true none runtime path lookup before = none
handle true (some token_scope) runtime path lookup before =
    if runtime.enabled && requires_security_context path
    then some (some (security_of runtime token_scope lookup))
    else some before

-- On a protected path with the policies on, the middleware and the response transform decide by one
-- policy: the client built from the request's state has the policy that a direct lookup gives, and
-- has none exactly where the lookup fails.
pub current_policy-handle :
    (runtime : PolicySnapshot) (token_scope path : Text) (lookup direct : Lookup)
    (before state : Option SecurityContextState)
    → runtime.enabled ≡ true
    → requires_security_context path ≡ true
    → handle true (some token_scope) runtime path lookup before ≡ some state
    → current_policy runtime (client_of state) direct
      ≡ current_policy runtime (client_of none) lookup
unfolding handle current_policy
current_policy-handle runtime token_scope path (found r) direct before state on protected h =
    let e : some (security_of runtime token_scope (found r)) ≡ state = ground arith in
    rw (← e) (ground arith)
current_policy-handle runtime token_scope path (failed t) direct before state on protected h =
    let e : some (security_of runtime token_scope (failed t)) ≡ state = ground arith in
    rw (← e) (ground arith)
