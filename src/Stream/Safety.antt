-- ===== src/Stream/Safety.antt =====
-- What reaches an account: restricted streams stay behind Replex and are of permitted versions.
use replex.Prelude.{
  ℕ, ◌==◌, if◌then◌else◌, ◌≡◌, refl, ◌≢◌, ◌⊎◌, inl, inr, Bool, true, false, Option, none, some,
  List, Memᴰ, arith, Bool-cases, Option-cases, &&_parts,
}
use replex.Prelude.Int.{ℤ}
use replex.Prelude.Text.{Text}
use replex.Media.{Media, MediaPart}
use replex.Policy.Entries.{ResolutionPolicy}
use replex.Policy.Classify.{media_allowed}
use replex.Cache.{Cache}
use replex.Parts.{
  PartMediaClassification, facts, bitrate_allowed, part_classification_allowed,
  part_classification_allowed-eq, IsSound,
}
use replex.Metrics.{Metrics, fetch_add}
use replex.Security.{SecurityContextState, resolved, unavailable, Lookup, found, failed, policy_of}
use replex.Stream.{
  StreamRequest, Reply, status, proxied, redirected, stream_delivery, is_restricted, deliver,
  deliver_under, decide_stream, protected_redirect_stream,
}

-- The policy under which a request is judged, where one is known.
abbrev pub governing : StreamRequest → Option ResolutionPolicy
governing req = elim req.security [
  | some (resolved s) ↦ some s.policy
  | some (unavailable fail_closed reason) ↦ none
  | none ↦ elim req.user [
    | found r ↦ some (policy_of req.runtime r.identity)
    | failed reason ↦ none
  ]
]

abbrev forbidden : Reply → Bool
forbidden (status n) = n == 403
forbidden proxied = false
forbidden redirected = false

abbrev pub CountsRejects : Metrics → Reply × Metrics → Type 0
CountsRejects m (reply, after) =
    after.policy_rejects
    ≡ (if forbidden reply then fetch_add m.policy_rejects 1 else m.policy_rejects)

-- What a restricting policy lets through of a part: a version that passed through has the part,
-- the policy permits the version, and its bitrate is known and within the cap, if there is one.
pub record Permitted (seen : List Media) (policy : ResolutionPolicy) (id : ℤ) : Type 0 where
  pub version : Media
  pub part : MediaPart
  pub was_seen : Memᴰ version seen
  pub has_part : Memᴰ part version.parts
  pub same_id : part.id ≡ id
  pub allowed : media_allowed version policy ≡ true
  pub within_cap : bitrate_allowed version.bitrate policy.max_bitrate ≡ true

module _ (cache : Cache ℤ PartMediaClassification) (parts : cache.Store) (req : StreamRequest)
    (m : Metrics) where
  deliver_under_restricted :
      (policy : ResolutionPolicy)
      → is_restricted policy ≡ true
      → (deliver_under cache parts req policy m).0 ≢ redirected
  unfolding deliver_under deliver stream_delivery
  deliver_under_restricted policy r e = ground arith

  -- With the policies on, a request judged by a restricting policy never gets the origin's address.
  pub restricted_never_redirected :
      (policy : ResolutionPolicy)
      → req.runtime.enabled ≡ true
      → governing req ≡ some policy
      → is_restricted policy ≡ true
      → (protected_redirect_stream cache parts req m).0 ≢ redirected
  unfolding protected_redirect_stream decide_stream
  restricted_never_redirected policy on g r e = ground (arith, deliver_under_restricted policy r)

  governed :
      (policy : ResolutionPolicy)
      → req.runtime.enabled ≡ true
      → governing req ≡ some policy
      → (protected_redirect_stream cache parts req m).0 ≡ proxied
      → (deliver_under cache parts req policy m).0 ≡ proxied
  unfolding protected_redirect_stream decide_stream
  governed policy on g e = ground arith

  deliver_under-proxied :
      (policy : ResolutionPolicy) (id : ℤ)
      → is_restricted policy ≡ true
      → req.part ≡ some id
      → (deliver_under cache parts req policy m).0 ≡ proxied
      → (c : PartMediaClassification) × (cache.lookup parts id ≡ some c)
        × (part_classification_allowed c policy ≡ true)
  unfolding deliver_under
  deliver_under-proxied policy id r p e = elim (Option-cases (cache.lookup parts id)) [
    | inl gone ↦ absurd (ground (arith, gone))
    | inr (c, there) ↦ elim (Bool-cases (part_classification_allowed c policy)) [
      | inl ok ↦ (c, there, ok)
      | inr bad ↦ absurd (ground (arith, there, bad))
    ]
  ]

  -- With the policies on and a restricting policy, the bytes of a part are delivered only if it
  -- belongs to a version that has passed through the proxy and that the policy permits now.
  pub restricted_part-Permitted :
      (seen : List Media) (policy : ResolutionPolicy) (id : ℤ)
      → IsSound cache seen parts
      → req.runtime.enabled ≡ true
      → governing req ≡ some policy
      → is_restricted policy ≡ true
      → req.part ≡ some id
      → (protected_redirect_stream cache parts req m).0 ≡ proxied
      → Permitted seen policy id
  restricted_part-Permitted seen policy id sound on g r p e =
      let c = deliver_under-proxied policy id r p (governed policy on g e) in
      let o = sound id c.0 c.1 in
      let allowed : part_classification_allowed (facts o.version) policy ≡ true =
        rw (← o.same_facts) c.2 in
      let both =
        &&_parts (media_allowed o.version policy)
          (bitrate_allowed o.version.bitrate policy.max_bitrate)
          (rw (part_classification_allowed-eq o.version policy) at allowed) in
      record {
        version = o.version;
        part = o.part;
        was_seen = o.was_seen;
        has_part = o.has_part;
        same_id = o.same_id;
        allowed = both.0;
        within_cap = both.1;
      }

  -- Whether a reply gives the stream, as bytes or by the origin's address.
  abbrev pub IsDelivered : Reply → Type 0
  IsDelivered r = (r ≡ proxied) ⊎ (r ≡ redirected)

  -- What stands behind a stream that is delivered with the policies on.
  abbrev pub IsAccounted : Type 0
  IsAccounted =
      ((policy : ResolutionPolicy) × (governing req ≡ some policy))
      ⊎ ((reason : Text) × (req.security ≡ some (unavailable false reason)))

  refused : {C : Type 0} (n : ℕ) (r : Reply) → r ≡ status n → IsDelivered r → C
  refused n r e (inl p) = absurd (ground (arith, e, p))
  refused n r e (inr p) = absurd (ground (arith, e, p))

  delivered_state :
      (s : SecurityContextState)
      → req.security ≡ some s
      → IsDelivered (decide_stream cache parts req m).0
      → IsAccounted
  unfolding decide_stream
  delivered_state (resolved s) e d = inl (s.policy, rw e refl)
  delivered_state (unavailable true reason) e d =
      refused 503 (decide_stream cache parts req m).0 (rw (e, decide_stream) refl) d
  delivered_state (unavailable false reason) e d = inr (reason, e)

  delivered_user :
      (user : Lookup)
      → req.security ≡ none
      → req.user ≡ user
      → IsDelivered (decide_stream cache parts req m).0
      → IsAccounted
  unfolding decide_stream
  delivered_user (found r) n e d = inl (policy_of req.runtime r.identity, rw (n, e) refl)
  delivered_user (failed reason) n e d =
      refused 503 (decide_stream cache parts req m).0 (rw (n, e, decide_stream) refl) d

  -- With the policies on, a stream is delivered, as bytes or by the origin's address, only for a
  -- request in which the program's state, the client's context and a client are there, and whose
  -- account is known, so that a policy governs it, or whose account is not known and the policies
  -- do not fail closed.
  pub delivered_is_accounted :
      req.runtime.enabled ≡ true
      → IsDelivered (protected_redirect_stream cache parts req m).0
      → (req.has_state ≡ true) × (req.has_context ≡ true) × (req.has_client ≡ true) × IsAccounted
  unfolding protected_redirect_stream
  delivered_is_accounted on d = elim (Bool-cases req.has_state) [
    | inr absent ↦ refused 500 (protected_redirect_stream cache parts req m).0 (ground arith) d
    | inl state ↦ elim (Bool-cases req.has_context) [
      | inr absent ↦ refused 400 (protected_redirect_stream cache parts req m).0 (ground arith) d
      | inl context ↦ elim (Bool-cases req.has_client) [
        | inr absent ↦ refused 401 (protected_redirect_stream cache parts req m).0 (ground arith) d
        | inl client ↦
            let reached : IsDelivered (decide_stream cache parts req m).0 =
              rw (state, on, context, client) at d in
            (
              state,
              context,
              client,
              elim (Option-cases req.security) [
                | inl n ↦ delivered_user req.user n refl reached
                | inr (s, e) ↦ delivered_state s e reached
              ],
            )
      ]
    ]
  ]

  rejects_under :
      (policy : ResolutionPolicy) → CountsRejects m (deliver_under cache parts req policy m)
  unfolding deliver_under deliver stream_delivery
  rejects_under policy = ground arith

  rejects_deliver : (restricted : Bool) → CountsRejects m (deliver req restricted m)
  unfolding deliver stream_delivery
  rejects_deliver restricted = ground arith

  rejects_state :
      (s : SecurityContextState)
      → req.security ≡ some s
      → CountsRejects m (decide_stream cache parts req m)
  unfolding decide_stream
  rejects_state (resolved s) e = rw (e, decide_stream) (rejects_under s.policy)
  rejects_state (unavailable true reason) e = rw (e, decide_stream) refl
  rejects_state (unavailable false reason) e = rw (e, decide_stream) (rejects_deliver false)

  rejects_user :
      (user : Lookup)
      → req.security ≡ none
      → req.user ≡ user
      → CountsRejects m (decide_stream cache parts req m)
  unfolding decide_stream
  rejects_user (found r) n e =
      rw (n, e, decide_stream) (rejects_under (policy_of req.runtime r.identity))
  rejects_user (failed reason) n e = rw (n, e, decide_stream) refl

  rejects_decide : CountsRejects m (decide_stream cache parts req m)
  rejects_decide = elim (Option-cases req.security) [
    | inl n ↦ rejects_user req.user n refl
    | inr (s, e) ↦ rejects_state s e
  ]

  -- The counter of policy rejects goes up by one for a request that is answered with 403, and stays
  -- for any other.
  pub rejects_counted : CountsRejects m (protected_redirect_stream cache parts req m)
  unfolding protected_redirect_stream decide_stream
  rejects_counted = ground (arith, rejects_decide, rejects_deliver false)
