-- ===== src/Tests/Jobs.antt =====
-- A job that the cooldown forgets while it runs.
use replex.Prelude.{◌≤◌, ◌≡◌, refl, ◌↔◌, true, false, none, [], ◌∷◌, any}
use replex.Prelude.Text.{Text, codes}
use replex.Metrics.{started}
use replex.Hub.{member, insert_key}
use replex.Hub.SingleFlight.{count}
use replex.Jobs.{JobSupervisor, try_start}
use replex.Jobs.SingleFlight.{System, starts, forgets, idle, goes_on, Reachable-no_overlap}
use replex.Cache.Assoc.{assoc, find_key}
use replex.Tests.Data.{text_cache}

abbrev job : Text
job = codes "notifications"

abbrev no_jobs : JobSupervisor text_cache
no_jobs = record { inflight = []; cooling = text_cache.empty; metrics = started }

abbrev one_job : JobSupervisor text_cache
one_job = record no_jobs {
  inflight = job ∷ [];
  cooling = text_cache.insert text_cache.empty job tt;
}

-- The cooldown has forgotten the job, which is still running.
abbrev forgotten : JobSupervisor text_cache
forgotten = record one_job { cooling = text_cache.empty }

abbrev idle_jobs : System text_cache
idle_jobs = record { supervisor = no_jobs; running = [] }

abbrev working : System text_cache
working = record { supervisor = one_job; running = job ∷ [] }

abbrev forgetful : System text_cache
forgetful = record { supervisor = forgotten; running = job ∷ [] }

Reachable-no_overlap_example :
    (count job forgetful.running ≤ 1)
    × (((try_start text_cache job forgotten).0 ≡ true)
        ↔ ((text_cache.lookup forgotten.cooling job ≡ none) × (count job forgetful.running ≡ 0)))
Reachable-no_overlap_example = Reachable-no_overlap text_cache forgetful job (
    goes_on working forgetful
      (goes_on idle_jobs working (idle idle_jobs refl refl) (
        starts job idle_jobs one_job
          (unfold try_start insert_key member any text_cache assoc find_key in refl)))
      (forgets text_cache.empty working))

-- The job that the cooldown has forgotten is not started again while it runs.
not_started_again : (try_start text_cache job forgotten).0 ≡ false
unfolding try_start insert_key member any text_cache assoc find_key
not_started_again = refl
