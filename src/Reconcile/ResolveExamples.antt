-- ===== src/Reconcile/ResolveExamples.antt =====
-- Runs of `resolve_reconciliation_task`, and its theorems at a concrete store.
use portfolio_tracker_public.Prelude.{
  ◌≡◌, refl, ◌↔◌, String, [], ◌∷◌, none, some, string_eq, option_eq,
}
use portfolio_tracker_public.Prelude.Int.{pos}
use portfolio_tracker_public.Reconcile.Resolve.{
  TaskRow, DecisionRow, Store, Request, Resolution, refused, resolved, task_not_open,
  type_not_allowed, decision_types_of, find_task, find_decision, closed, close_task, resolve_by,
  resolve_found, resolve_reconciliation_task,
}
use portfolio_tracker_public.Reconcile.Lifecycle.{
  IsResolvable, stay, resolve_reconciliation_task_iff, resolve_reconciliation_task_once,
}

abbrev question : TaskRow
question = record {
  task_id = "t1";
  task_type = "unknown_outgoing_transfer";
  status = "open";
  resolved_at = none;
  resolved_by = none;
  resolved_by_decision_type = none;
  resolved_by_decision_id = none;
}

abbrev answer : DecisionRow
answer = record {
  decision_type = "accounting_transfer_link";
  id = 4;
  status = "active";
  review_task_id = some "t1";
}

abbrev store : Store
store = record { tasks = question ∷ []; decisions = answer ∷ [] }

abbrev request : String → Request
request decision_type = record {
  task_id = "t1";
  decision_type = decision_type;
  decision_id = 4;
  resolved_by = "owner";
  resolved_at = none;
  now = pos 77;
}

abbrev by_link : Request
by_link = request "accounting_transfer_link"

abbrev answered : Store
answered = record store { tasks = closed by_link question ∷ [] }

resolve : Request → Store → Resolution
unfolding resolve_reconciliation_task resolve_found resolve_by find_task find_decision close_task
    decision_types_of string_eq option_eq
resolve = resolve_reconciliation_task

resolve_runs :
    (resolve by_link store ≡ resolved (closed by_link question) answered)
    × (resolve by_link answered ≡ refused task_not_open)
    × (resolve (request "accounting_import_approval") store ≡ refused type_not_allowed)
unfolding resolve
resolve_runs = (refl, refl, refl)

resolve_iff_example :
    (resolve_reconciliation_task by_link store ≡ resolved (closed by_link question) answered) ↔ (
      (task : TaskRow) × IsResolvable by_link store task
      × (closed by_link question ≡ closed by_link task)
      × (answered ≡ record store { tasks = close_task by_link store.tasks }))
resolve_iff_example =
    resolve_reconciliation_task_iff by_link store (closed by_link question) answered

resolve_once_example :
    (find_task "t1" answered.tasks ≡ some (closed by_link question))
    × (resolve_reconciliation_task by_link answered ≡ refused task_not_open)
unfolding resolve
resolve_once_example =
    resolve_reconciliation_task_once by_link store (closed by_link question) answered answered
      by_link refl stay refl
