-- ===== src/Reconcile/Resolve.antt =====
-- `resolve_reconciliation_task`: closing a task by a decision. The store has the rows that the function
-- reads, with their columns that it reads or writes; a decision stands in the table of its type.
use portfolio_tracker_public.Prelude.{
  ℕ, String, List, [], ◌∷◌, Option, none, some, Bool, not, ◌&&◌, ◌==◌, string_eq, option_eq,
  contains, get_or, eqb, if◌then◌else◌,
}
use portfolio_tracker_public.Prelude.Int.{ℤ}

pub record TaskRow : Type 0 where
  pub task_id : String
  pub task_type : String
  pub status : String
  pub resolved_at : Option ℤ
  pub resolved_by : Option String
  pub resolved_by_decision_type : Option String
  pub resolved_by_decision_id : Option ℕ

pub record DecisionRow : Type 0 where
  pub decision_type : String
  pub id : ℕ
  pub status : String
  pub review_task_id : Option String

pub record Store : Type 0 where
  pub tasks : List TaskRow
  pub decisions : List DecisionRow

-- The reasons for an `AccountingResolutionError`, and the result.
pub data ResolutionError : Type 0 where
  task_missing task_not_open type_not_supported type_not_allowed decision_missing : ResolutionError
  decision_not_active other_task : ResolutionError

pub data Resolution : Type 0 where
  refused : ResolutionError → Resolution
  resolved : TaskRow → Store → Resolution

-- The arguments; `now` is what `datetime.now(UTC)` gives.
pub record Request : Type 0 where
  pub task_id : String
  pub decision_type : String
  pub decision_id : ℕ
  pub resolved_by : String
  pub resolved_at : Option ℤ
  pub now : ℤ

-- The keys of `DECISION_MODELS`
abbrev pub decision_models : List String
decision_models =
    "accounting_transfer_link" ∷ "accounting_external_cashflow_classification"
    ∷ "accounting_import_approval" ∷ "accounting_cost_basis_decision" ∷ []

-- `DECISION_TYPES_BY_TASK_TYPE.get(task_type, set())`
unfoldable pub decision_types_of : String → List String
decision_types_of task_type =
    if task_type == "unknown_outgoing_transfer"
    then "accounting_transfer_link" ∷ "accounting_external_cashflow_classification" ∷ []
    else if task_type == "missing_cost_basis"
    then "accounting_cost_basis_decision" ∷ []
    else if task_type == "import_approval"
    then "accounting_import_approval" ∷ []
    else if task_type == "source_coverage_gap"
    then "accounting_import_approval" ∷ []
    else []

unfoldable pub find_task : String → List TaskRow → Option TaskRow
find_task task_id [] = none
find_task task_id (t ∷ ts) =
    let rest = find_task task_id ts in if t.task_id == task_id then some t else rest

abbrev pub is_decision : String → ℕ → DecisionRow → Bool
is_decision decision_type id d = d.decision_type == decision_type && eqb d.id id

-- `session.get(decision_model, decision_id)`
unfoldable pub find_decision : String → ℕ → List DecisionRow → Option DecisionRow
find_decision decision_type id [] = none
find_decision decision_type id (d ∷ ds) =
    let rest = find_decision decision_type id ds in
    if is_decision decision_type id d then some d else rest

abbrev pub closed : Request → TaskRow → TaskRow
closed r t = record t {
  status = "resolved";
  resolved_at = some (get_or r.resolved_at r.now);
  resolved_by = some r.resolved_by;
  resolved_by_decision_type = some r.decision_type;
  resolved_by_decision_id = some r.decision_id;
}

-- The row that was read, written in its place.
unfoldable pub close_task : Request → List TaskRow → List TaskRow
close_task r [] = []
close_task r (t ∷ ts) =
    let rest = close_task r ts in if t.task_id == r.task_id then closed r t ∷ ts else t ∷ rest

-- The tests on the decision, and the change of the task.
unfoldable pub resolve_by : Request → Store → TaskRow → Option DecisionRow → Resolution
resolve_by r s task none = refused decision_missing
resolve_by r s task (some decision) =
    if not (decision.status == "active")
    then refused decision_not_active
    else if not (decision.review_task_id == some task.task_id)
    then refused other_task
    else resolved (closed r task) (record s { tasks = close_task r s.tasks })

unfoldable pub resolve_found : Request → Store → Option TaskRow → Resolution
resolve_found r s none = refused task_missing
resolve_found r s (some task) =
    if not (task.status == "open")
    then refused task_not_open
    else if not (contains decision_models r.decision_type)
    then refused type_not_supported
    else if not (contains (decision_types_of task.task_type) r.decision_type)
    then refused type_not_allowed
    else resolve_by r s task (find_decision r.decision_type r.decision_id s.decisions)

unfoldable pub resolve_reconciliation_task : Request → Store → Resolution
resolve_reconciliation_task r s = resolve_found r s (find_task r.task_id s.tasks)
