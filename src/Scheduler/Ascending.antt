-- ===== src/Scheduler/Ascending.antt =====
-- No run is put in the queue twice.
use mathlib.Core.Path.{subst}
use portfolio_tracker_public.Prelude.{
  ℕ, zero, suc, ◌+◌, ◌≤◌, ◌<◌, ◌≡◌, List, [], ◌∷◌, ◌++◌, Option, none, some, inl, inr, Bool-cases,
  Option-cases, ltb, leb, arith, All, All-mono, All-append,
}
use portfolio_tracker_public.Scheduler.Due.{
  due_from, due_run_times, Schedule, last_run, next_marker, enqueue_runs, enqueue_periodic_job,
}

abbrev pub Ascending : List ℕ → Type 0
Ascending [] = Unit
Ascending (x ∷ xs) = All (λ y. x < y) xs × Ascending xs

-- The times in the queue ascend and are up to the key; without a key there are none.
abbrev pub IsQueued : Option ℕ → List ℕ → Type 0
IsQueued none queued = queued ≡ []
IsQueued (some marker) queued = All (λ t. t ≤ marker) queued × Ascending queued

Ascending-append :
    (m : ℕ) (xs ys : List ℕ)
    → Ascending xs
    → All (λ x. x ≤ m) xs
    → Ascending ys
    → All (λ y. m < y) ys
    → Ascending (xs ++ ys)
Ascending-append m [] ys a b c d = c
Ascending-append m (x ∷ xs) ys a b c d = (
  All-append (λ y. x < y) xs ys a.0
      (All-mono (λ y. m < y) (λ y. x < y) (λ y h. let le = b.0 in omega arith) ys d),
  Ascending-append m xs ys a.1 b.1 c d,
)

-- The runs of the loop ascend, from the next one that is due up to now.
due_from-Ascending :
    (left next_due now cadence : ℕ)
    → 0 < cadence
    → Ascending (due_from left next_due now cadence)
      × All (λ t. next_due ≤ t) (due_from left next_due now cadence)
      × All (λ t. t ≤ now) (due_from left next_due now cadence)
unfolding due_from
due_from-Ascending zero next_due now cadence h = (tt, tt, tt)
due_from-Ascending (suc left) next_due now cadence h = elim (Bool-cases (leb next_due now)) [
  | inr e ↦ rw e (tt, tt, tt)
  | inl e ↦
      let (up, above, below) = due_from-Ascending left (next_due + cadence) now cadence h in
      let runs = due_from left (next_due + cadence) now cadence in
      rw e (
        (
          All-mono (λ t. next_due + cadence ≤ t) (λ t. next_due < t) (λ t g. omega arith) runs
              above,
          up,
        ),
        (
          omega arith,
          All-mono (λ t. next_due + cadence ≤ t) (λ t. next_due ≤ t) (λ t g. omega arith) runs
              above,
        ),
        (ground arith, below),
      )
]

-- The last of ascending runs is an upper bound.
last_run-bound :
    (run : ℕ) (runs : List ℕ)
    → Ascending (run ∷ runs)
    → All (λ t. t ≤ last_run run runs) (run ∷ runs)
last_run-bound run [] h = (omega arith, tt)
last_run-bound run (later ∷ runs) h =
    let rest = last_run-bound later runs h.1 in
    let first = h.0.0 in let second = rest.0 in (omega arith, rest)

next_marker-bound : (m last now cadence : ℕ) → m ≤ last → m ≤ next_marker last now cadence
next_marker-bound m last now cadence h = ground arith

-- With the next run after `m`, the runs of the loop extend what is up to `m`.
enqueue_runs-IsQueued :
    (s : Schedule) (m now cadence : ℕ) (runs : List ℕ)
    → s.last_enqueued_at ≡ some m
    → IsQueued (some m) s.queued
    → Ascending runs
    → All (λ t. m < t) runs
    → All (λ t. t ≤ now) runs
    → IsQueued
        ((enqueue_runs s now cadence runs).0).last_enqueued_at
        ((enqueue_runs s now cadence runs).0).queued
unfolding enqueue_runs
enqueue_runs-IsQueued s m now cadence [] key q up above below = rw key q
enqueue_runs-IsQueued s m now cadence (run ∷ runs) key q up above below =
    let marker = next_marker (last_run run runs) now cadence in
    let bound =
      All-mono (λ t. t ≤ last_run run runs) (λ t. t ≤ marker)
        (λ t h. next_marker-bound t (last_run run runs) now cadence h) (run ∷ runs)
        (last_run-bound run runs up) in
    let first = bound.0 in
    let after = above.0 in
    (
      All-append (λ t. t ≤ marker) s.queued (run ∷ runs)
          (All-mono (λ t. t ≤ m) (λ t. t ≤ marker) (λ t h. omega arith) s.queued q.0) bound,
      Ascending-append m s.queued (run ∷ runs) q.1 q.0 up above,
    )

-- The times that are due are later than the key and up to now, in ascending order.
due_run_times-Ascending :
    (m now cadence windows : ℕ)
    → 0 < cadence
    → Ascending (due_run_times (some m) now cadence windows)
      × All (λ t. m < t) (due_run_times (some m) now cadence windows)
      × All (λ t. t ≤ now) (due_run_times (some m) now cadence windows)
unfolding due_run_times
due_run_times-Ascending m now cadence windows h = elim (Bool-cases (ltb now (m + cadence))) [
  | inl e ↦ rw e (tt, tt, tt)
  | inr e ↦
      let (up, above, below) = due_from-Ascending windows (m + cadence) now cadence h in
      let runs = due_from windows (m + cadence) now cadence in
      rw e (up, All-mono (λ t. m + cadence ≤ t) (λ t. m < t) (λ t g. omega arith) runs above, below)
]

first_run-IsQueued :
    (s : Schedule) (now cadence windows : ℕ)
    → s.last_enqueued_at ≡ none
    → IsQueued none s.queued
    → IsQueued
        ((enqueue_periodic_job s now cadence windows).0).last_enqueued_at
        ((enqueue_periodic_job s now cadence windows).0).queued
unfolding enqueue_periodic_job enqueue_runs due_run_times
first_run-IsQueued s now cadence windows key q =
    rw key (rw q ((next_marker-bound now now now cadence (omega arith), tt), (tt, tt)))

-- If the cadence is positive, and the times in the queue ascend and are up to the key (with no key,
-- there are none), then so they do after a job was put in the queue: no run is queued twice.
pub enqueue_periodic_job-IsQueued :
    (s : Schedule) (now cadence max_catch_up_windows : ℕ)
    → 0 < cadence
    → IsQueued s.last_enqueued_at s.queued
    → IsQueued
        ((enqueue_periodic_job s now cadence max_catch_up_windows).0).last_enqueued_at
        ((enqueue_periodic_job s now cadence max_catch_up_windows).0).queued
unfolding enqueue_periodic_job
enqueue_periodic_job-IsQueued s now cadence windows h q = elim (Option-cases s.last_enqueued_at) [
  | inl key ↦ first_run-IsQueued s now cadence windows key (subst (λ k. IsQueued k s.queued) key q)
  | inr (m, key) ↦
      let (up, above, below) = due_run_times-Ascending m now cadence windows h in
      simp (key) (
        enqueue_runs-IsQueued s m now cadence (due_run_times (some m) now cadence windows) key
          (subst (λ k. IsQueued k s.queued) key q) up above below)
]
