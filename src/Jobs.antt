-- ===== src/Jobs.antt =====
-- jobs.rs: the supervisor of background jobs, with one run of a job at a time and a pause between.
pub mod SingleFlight
use replex.Prelude.{◌≡◌, Bool, true, false, List, is_some, if◌then◌else◌, arith, any}
use replex.Prelude.Text.{Text, text_eq_refl}
use replex.Cache.{Cache}
use replex.Metrics.{Metrics, task_failure}
use replex.Hub.{member, insert_key, remove_key}

-- `cooldown` is a cache whose entries last an hour; what it holds is no more than the key.
module _ (cooldown : Cache Text Unit) where
  pub record JobSupervisor : Type 0 where
    pub inflight : List Text
    pub cooling : cooldown.Store
    pub metrics : Metrics

  unfoldable pub try_start : Text → JobSupervisor → Bool × JobSupervisor
  unfolding insert_key
  try_start key s =
      let claim = insert_key key s.inflight in
      let started : JobSupervisor = record s {
        inflight = claim.1;
        cooling = cooldown.insert s.cooling key tt;
      } in
      if is_some (cooldown.lookup s.cooling key)
      then (false, s)
      else if claim.0
      then (true, started)
      else (false, s)

  unfoldable pub finish : Text → Bool → JobSupervisor → JobSupervisor
  unfolding remove_key
  finish key success s = record s {
    inflight = remove_key key s.inflight;
    metrics = if success then s.metrics else task_failure s.metrics;
  }
