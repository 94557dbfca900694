-- ===== src/Reconcile/Coverage/Outgoing.antt =====
-- Every outgoing movement of XTB is classified, and every one of a tracked source is linked or asked
-- about.
use portfolio_tracker_public.Prelude.{◌≡◌, ◌≢◌, refl, String, List, [], ◌∷◌, none, string_eq}
use portfolio_tracker_public.Prelude.Dict.{
  Dict, get, setdefault, AllEntries, setdefault-AllEntries, get-setdefault_keeps,
}
use portfolio_tracker_public.Reconcile.Types.{
  MovementEvidence, CostBasisGapEvidence, ReconciliationTaskRecord,
}
use portfolio_tracker_public.Reconcile.Matching.{dedupe_movements}
use portfolio_tracker_public.Reconcile.Records.{missing_cost_basis_task}
use portfolio_tracker_public.Reconcile.Run.{nothing_found, add_gap_tasks, found_in, all_tasks}
use portfolio_tracker_public.Reconcile.Coverage.{AreFiled, reconcile_each-AreFiled}

module _ (digest : String → String) (deposits : List MovementEvidence) where
  add_gap_tasks-AreFiled :
      (tasks : Dict String ReconciliationTaskRecord) (gaps : List CostBasisGapEvidence)
      → AllEntries (λ k task. k ≡ task.task_key) tasks
      → AllEntries (λ k task. k ≡ task.task_key) (add_gap_tasks digest tasks gaps)
  unfolding add_gap_tasks
  add_gap_tasks-AreFiled tasks [] f = f
  add_gap_tasks-AreFiled tasks (g ∷ gaps) f =
      add_gap_tasks-AreFiled
        (setdefault (missing_cost_basis_task digest g).task_key (missing_cost_basis_task digest g)
          tasks)
        gaps (setdefault-AllEntries _ _ _ tasks refl f)

  pub add_gap_tasks-keeps :
      (tasks : Dict String ReconciliationTaskRecord) (gaps : List CostBasisGapEvidence) (k : String)
      → get k tasks ≢ none
      → get k (add_gap_tasks digest tasks gaps) ≢ none
  unfolding add_gap_tasks
  add_gap_tasks-keeps tasks [] k h = h
  add_gap_tasks-keeps tasks (g ∷ gaps) k h =
      add_gap_tasks-keeps
        (setdefault (missing_cost_basis_task digest g).task_key (missing_cost_basis_task digest g)
          tasks)
        gaps k
        (get-setdefault_keeps k (missing_cost_basis_task digest g).task_key
          (missing_cost_basis_task digest g) tasks h)

module _ (digest : String → String) (ms : List MovementEvidence) where
  pub found_in-AreFiled : AreFiled (found_in digest ms)
  unfolding found_in
  found_in-AreFiled =
      reconcile_each-AreFiled digest _ nothing_found (dedupe_movements ms)
        (record { links = tt; tasks = tt; cashflows = tt })

  pub all_tasks-AreFiled :
      (gaps : List CostBasisGapEvidence)
      → AllEntries (λ k task. k ≡ task.task_key) (all_tasks digest ms gaps)
  unfolding all_tasks
  all_tasks-AreFiled gaps =
      add_gap_tasks-AreFiled digest [] _ gaps
        (add_gap_tasks-AreFiled digest [] _ _ found_in-AreFiled.tasks)
