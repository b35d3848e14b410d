-- ===== src/Stream.antt =====
-- routes.rs: `stream_delivery` and `protected_redirect_stream`, which gate the bytes of a stream.
pub mod Safety
use replex.Prelude.{
  ℕ, ◌≡◌, Bool, true, false, not, ◌||◌, Option, none, some, is_some, if◌then◌else◌,
}
use replex.Prelude.Int.{ℤ}
use replex.Policy.Entries.{ResolutionPolicy, is_unrestricted}
use replex.Policy.Snapshot.{PolicySnapshot}
use replex.Cache.{Cache}
use replex.Parts.{PartMediaClassification, part_classification_allowed}
use replex.Metrics.{Metrics, policy_reject, redirect}
use replex.Security.{SecurityContextState, resolved, unavailable, Lookup, found, failed, policy_of}

pub data StreamDelivery : Type 0 where
  proxy to_origin : StreamDelivery

unfoldable pub stream_delivery : Bool → Bool → StreamDelivery
stream_delivery restricted redirects_enabled =
    if restricted || not redirects_enabled then proxy else to_origin

-- What the client gets: an error status, the bytes through Replex, or the origin's address.
pub data Reply : Type 0 where
  status : ℕ → Reply
  proxied redirected : Reply

-- What the handler finds in the depot and the request. `user` is what `get_current_user` returns.
pub record StreamRequest : Type 0 where
  pub has_state : Bool
  pub redirect_streams : Bool
  pub runtime : PolicySnapshot
  pub has_context : Bool
  pub has_client : Bool
  pub security : Option SecurityContextState
  pub user : Lookup
  pub part : Option ℤ

-- `deliver_stream`; a redirect needs the request context, and an error of it becomes 500.
unfoldable pub deliver : StreamRequest → Bool → Metrics → Reply × Metrics
unfolding stream_delivery
deliver req restricted m = elim (stream_delivery restricted req.redirect_streams) [
  | proxy ↦ (proxied, m)
  | to_origin ↦ if req.has_context then (redirected, redirect m) else (status 500, m)
]

abbrev pub is_restricted : ResolutionPolicy → Bool
is_restricted policy = not (is_unrestricted policy) || is_some policy.max_bitrate

module _ (cache : Cache ℤ PartMediaClassification) where
  open cache use {Store, lookup}

  -- The request of an account whose policy is known.
  unfoldable pub deliver_under :
      Store → StreamRequest → ResolutionPolicy → Metrics → Reply × Metrics
  unfolding deliver part_classification_allowed
  deliver_under parts req policy m =
      if is_restricted policy
      then (elim req.part [
        | some id ↦ elim (lookup parts id) [
          | some c ↦
              if part_classification_allowed c policy
              then deliver req (is_restricted policy) m
              else (status 403, policy_reject m)
          | none ↦ (status 403, policy_reject m)
        ]
        | none ↦ deliver req (is_restricted policy) m
      ])
      else deliver req false m

  -- Once the policies are known to be on and the client is built.
  unfoldable pub decide_stream : Store → StreamRequest → Metrics → Reply × Metrics
  unfolding deliver_under
  decide_stream parts req m = elim req.security [
    | some (resolved s) ↦ deliver_under parts req s.policy m
    | some (unavailable fail_closed reason) ↦
        if fail_closed then (status 503, m) else deliver req false m
    | none ↦ elim req.user [
      | found r ↦ deliver_under parts req (policy_of req.runtime r.identity) m
      | failed reason ↦ (status 503, m)
    ]
  ]

  unfoldable pub protected_redirect_stream : Store → StreamRequest → Metrics → Reply × Metrics
  unfolding decide_stream
  protected_redirect_stream parts req m =
      if not req.has_state
      then (status 500, m)
      else if not req.runtime.enabled
      then deliver req false m
      else if not req.has_context
      then (status 400, m)
      else if not req.has_client
      then (status 401, m)
      else decide_stream parts req m
