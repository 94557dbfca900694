-- ===== src/Scheduler/Examples.antt =====
-- Runs of the enqueueing: a first run, and one that catches up.
use portfolio_tracker_public.Prelude.{◌≡◌, refl, [], ◌∷◌, none, some, arith}
use portfolio_tracker_public.Scheduler.Due.{
  due_from, due_run_times, Schedule, enqueue_runs, enqueue_periodic_job,
}
use portfolio_tracker_public.Scheduler.Ascending.{IsQueued, enqueue_periodic_job-IsQueued}

abbrev started : Schedule
started = record { last_enqueued_at = some 100; queued = 40 ∷ 100 ∷ [] }

-- Two of the three runs that are due are queued, and the key is set to the time of the call.
catch_up_runs :
    (enqueue_periodic_job started 330 60 2
      ≡ (record { last_enqueued_at = some 330; queued = 40 ∷ 100 ∷ 160 ∷ 220 ∷ [] }, 2))
    × (enqueue_periodic_job started 130 60 2 ≡ (started, 0))
    × (enqueue_periodic_job (record { last_enqueued_at = none; queued = [] }) 130 60 2
        ≡ (record { last_enqueued_at = some 130; queued = 130 ∷ [] }, 1))
unfolding enqueue_periodic_job enqueue_runs due_run_times due_from
catch_up_runs = (refl, refl, refl)

enqueue_periodic_job-IsQueued_example :
    IsQueued
      ((enqueue_periodic_job started 330 60 2).0).last_enqueued_at
      ((enqueue_periodic_job started 330 60 2).0).queued
enqueue_periodic_job-IsQueued_example =
    enqueue_periodic_job-IsQueued started 330 60 2 (omega arith)
      ((omega arith, (omega arith, tt)), ((omega arith, tt), (tt, tt)))
