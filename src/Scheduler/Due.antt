-- ===== src/Scheduler/Due.antt =====
-- `due_run_times` and `_enqueue_periodic_job`. A time is a number of microseconds. The key of the store
-- holds the time that was written there, or `none` where there is none that can be read.
use portfolio_tracker_public.Prelude.{
  ℕ, zero, suc, ◌+◌, List, [], ◌∷◌, ◌++◌, Option, none, some, length, if◌then◌else◌, ltb, leb,
}

-- The `while` loop, with the number of further runs that `max_catch_up_windows` allows.
unfoldable pub due_from : ℕ → ℕ → ℕ → ℕ → List ℕ
due_from zero next_due now cadence = []
due_from (suc left) next_due now cadence =
    let rest = due_from left (next_due + cadence) now cadence in
    if leb next_due now then next_due ∷ rest else []

unfoldable pub due_run_times : Option ℕ → ℕ → ℕ → ℕ → List ℕ
due_run_times none now cadence max_catch_up_windows = now ∷ []
due_run_times (some last_enqueued_at) now cadence max_catch_up_windows =
    let next_due = last_enqueued_at + cadence in
    if ltb now next_due then [] else due_from max_catch_up_windows next_due now cadence

-- The key of a job and the times that were put in the queue.
pub record Schedule : Type 0 where
  pub last_enqueued_at : Option ℕ
  pub queued : List ℕ

-- `runs[-1]` of a first run and further runs
abbrev pub last_run : ℕ → List ℕ → ℕ
last_run run [] = run
last_run run (later ∷ runs) = last_run later runs

abbrev pub next_marker : ℕ → ℕ → ℕ → ℕ
next_marker last now cadence = if leb (last + cadence) now then now else last

-- The runs are put in the queue, and the key is set if there are any.
unfoldable pub enqueue_runs : Schedule → ℕ → ℕ → List ℕ → Schedule × ℕ
enqueue_runs s now cadence [] = (s, 0)
enqueue_runs s now cadence (run ∷ runs) = (
  record {
    last_enqueued_at = some (next_marker (last_run run runs) now cadence);
    queued = s.queued ++ (run ∷ runs);
  },
  length (run ∷ runs),
)

unfoldable pub enqueue_periodic_job : Schedule → ℕ → ℕ → ℕ → Schedule × ℕ
enqueue_periodic_job s now cadence max_catch_up_windows =
    enqueue_runs s now cadence (due_run_times s.last_enqueued_at now cadence max_catch_up_windows)
