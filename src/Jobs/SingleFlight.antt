-- ===== src/Jobs/SingleFlight.antt =====
-- jobs.rs: no two runs of one job, however starts, ends and the cooldown's forgetting interleave.
use replex.Prelude.{
  ap, none, ◌+◌, ◌≤◌, ◌≡◌, refl, ◌∙◌, ◌↔◌, inl, inr, Option-cases, Bool, true, false, List, [], ◌∷◌,
  ◌++◌, arith, any,
}
use replex.Prelude.Text.{Text, text_eq_iff}
use replex.Cache.{Cache}
use replex.Hub.{member, insert_key}
use replex.Hub.SingleFlight.{count, count-append, member-remove_key, at_most_once}
use replex.Jobs.{JobSupervisor, try_start, finish}

module _ (cooldown : Cache Text Unit) where
  -- The supervisor, and the keys of the jobs that were started and have not finished.
  pub record System : Type 0 where
    pub supervisor : JobSupervisor cooldown
    pub running : List Text

  -- A caller starts a job or is told not to; one of the running jobs ends, well or not; the cooldown
  -- becomes any other, since entries age and are pushed out.
  pub data Step : System → System → Type 0 where
    starts :
        (k : Text) (s : System) (r : JobSupervisor cooldown)
        → try_start cooldown k s.supervisor ≡ (true, r)
        → Step s (record { supervisor = r; running = k ∷ s.running })
    declines :
        (k : Text) (s : System) (r : JobSupervisor cooldown)
        → try_start cooldown k s.supervisor ≡ (false, r)
        → Step s (record { supervisor = r; running = s.running })
    ends :
        (k : Text) (success : Bool) (before after : List Text) (s : System)
        → s.running ≡ before ++ k ∷ after
        → Step s (record {
          supervisor = finish cooldown k success s.supervisor;
          running = before ++ after;
        })
    forgets :
        (cooling : cooldown.Store) (s : System)
        → Step s
            (record { supervisor = record s.supervisor { cooling = cooling }; running = s.running })

  pub data Reachable : System → Type 0 where
    idle : (s : System) → s.supervisor.inflight ≡ [] → s.running ≡ [] → Reachable s
    goes_on : (s r : System) → Reachable s → Step s r → Reachable r

  -- The set of the supervisor tells which jobs are running, and none runs twice.
  abbrev pub IsExact : System → Type 0
  IsExact s = (j : Text) → count j s.running ≡ at_most_once (member j s.supervisor.inflight)

  try_start_new :
      (k : Text) (s r : JobSupervisor cooldown)
      → try_start cooldown k s ≡ (true, r)
      → (member k s.inflight ≡ false) × (r.inflight ≡ k ∷ s.inflight)
  unfolding try_start insert_key
  try_start_new k s r e = (ground arith, ground arith)

  try_start_no :
      (k : Text) (s r : JobSupervisor cooldown)
      → try_start cooldown k s ≡ (false, r)
      → r.inflight ≡ s.inflight
  unfolding try_start insert_key
  try_start_no k s r e = ground arith

  IsExact-Step : (s r : System) → Step s r → IsExact s → IsExact r
  IsExact-Step _ _ (starts k s r e) h j =
      let new = try_start_new k s.supervisor r e in
      rw (new.1) (unfold member any in ground (arith, h j, new.0, text_eq_iff j k))
  IsExact-Step _ _ (declines k s r e) h j = rw (try_start_no k s.supervisor r e) (h j)
  IsExact-Step _ _ (ends k success before after s e) h j =
      unfold finish in
      let all : count j s.running ≡ count j before + count j (k ∷ after) =
        ap (count j) e ∙ count-append j before (k ∷ after) in
      rw (member-remove_key j k s.supervisor.inflight)
        (ground (arith, h j, all, count-append j before after))
  IsExact-Step _ _ (forgets cooling s) h j = h j

  IsExact-Reachable : (s : System) → Reachable s → IsExact s
  IsExact-Reachable _ (idle s none_marked none_running) j =
      unfold member any in rw (none_marked, none_running) refl
  IsExact-Reachable _ (goes_on s r before step) j =
      IsExact-Step s r step (IsExact-Reachable s before) j

  try_start_iff :
      (k : Text) (s : JobSupervisor cooldown)
      → ((try_start cooldown k s).0 ≡ true)
        ↔ ((cooldown.lookup s.cooling k ≡ none) × (member k s.inflight ≡ false))
  unfolding try_start insert_key
  try_start_iff k s = elim (Option-cases (cooldown.lookup s.cooling k)) [
    | inl over ↦ ground (arith, over)
    | inr (u, cooling) ↦ ground (arith, cooling)
  ]

  -- In every state that starts, ends (well or not) of running jobs and any forgetting of the cooldown
  -- lead to, no job runs twice; and a job is started exactly if the cooldown does not hold its key
  -- and it is not running.
  pub Reachable-no_overlap :
      (s : System) (k : Text)
      → Reachable s
      → (count k s.running ≤ 1)
        × (((try_start cooldown k s.supervisor).0 ≡ true)
            ↔ ((cooldown.lookup s.supervisor.cooling k ≡ none) × (count k s.running ≡ 0)))
  Reachable-no_overlap s k reached =
      let exact = IsExact-Reachable s reached k in
      let started = try_start_iff k s.supervisor in
      (
        ground (arith, exact),
        (
          (λ e. let free = started.0 e in (free.0, ground (arith, exact, free.1))),
          (λ free. started.1 (free.0, ground (arith, exact, free.1))),
        ),
      )
