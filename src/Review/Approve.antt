-- ===== src/Review/Approve.antt =====
-- `approve_accounting_review_decision` with `_idempotent_replay`, `_validate_task_action_compatible` and
-- `_add_audit_log`. An exception gives no store: the session's changes are rolled back.
use portfolio_tracker_public.Prelude.{
  ℕ, String, List, [], ◌∷◌, ◌++◌, Option, none, some, true, false, not, ◌==◌, string_eq, option_eq,
  contains, if◌then◌else◌,
}
use portfolio_tracker_public.Reconcile.Resolve.{
  TaskRow, Request, Resolution, ResolutionError, refused, resolved, decision_types_of,
  resolve_reconciliation_task, task_missing, task_not_open, type_not_supported, type_not_allowed,
  decision_missing, decision_not_active, other_task,
}
use portfolio_tracker_public.Review.Types.{
  DecisionRequest, DecisionResponse, Decision, StoredDecision, AuditEntry, EvidenceClaim,
  ReviewStore, conflict, integrity_error, Outcome, done, raised, raise_if, ◌>>=◌, ◌>>◌,
  Surroundings,
}
use portfolio_tracker_public.Review.Decisions.{
  action_name, decision_type_of, decision_key, request_fingerprint, build_decision,
}
use portfolio_tracker_public.Review.Tables.{
  table_of, decision_key_value, decision_key_prefix, find_stored, resolution_store, load_task,
  claim_decision_evidence, refresh_accounting_evidence_claims,
}

-- `str(exc)` of an `AccountingResolutionError`, up to the names in it
abbrev pub resolution_message : ResolutionError → String
resolution_message task_missing = "accounting task does not exist"
resolution_message task_not_open = "accounting task is not open"
resolution_message type_not_supported = "unsupported accounting decision type"
resolution_message type_not_allowed = "decision type cannot resolve task type"
resolution_message decision_missing = "decision does not exist"
resolution_message decision_not_active = "decision is not active"
resolution_message other_task = "decision belongs to another task"

module _ (env : Surroundings) where
  -- The row with its new id is added and flushed.
  unfoldable pub add_decision : List StoredDecision → Decision → Outcome StoredDecision
  add_decision decisions d =
      if env.admits d decisions
      then done (record { id = env.new_id (table_of d) decisions; decision = d })
      else raised integrity_error

  -- The claims after the trigger, if there is one, and after `_claim_decision_evidence`.
  unfoldable pub claim_evidence : List EvidenceClaim → StoredDecision → Outcome (List EvidenceClaim)
  claim_evidence claims d = do
    kept ← (if env.has_triggers then refresh_accounting_evidence_claims claims d else done claims)
    claim_decision_evidence kept d

  -- A resolved task: its decision again, if the request is the one that made it.
  unfoldable pub replay_by :
      TaskRow → DecisionRequest → ℕ → Option StoredDecision → Outcome (Option DecisionResponse)
  replay_by task request id none =
      raised (conflict "resolved accounting task decision no longer exists")
  replay_by task request id (some d) =
      if decision_key_value d.decision
        == decision_key env (decision_key_prefix request.action) task request
      then done (
          some (record {
            task_id = task.task_id;
            task_status = "resolved";
            decision_type = decision_type_of request.action;
            decision_id = id;
            replayed = true;
          }))
      else raised (conflict "idempotency key already used for a different accounting payload")

  unfoldable pub idempotent_replay :
      ReviewStore → TaskRow → DecisionRequest → Outcome (Option DecisionResponse)
  idempotent_replay s task request =
      let decision_type = decision_type_of request.action in
      if not (task.status == "resolved")
      then done none
      else if not (task.resolved_by_decision_type == some decision_type)
      then raised (conflict "idempotency key already used for a different accounting action")
      else elim task.resolved_by_decision_id [
        | none ↦
            raised (conflict "resolved accounting task is missing a durable decision reference")
        | some id ↦ replay_by task request id (find_stored decision_type id s.decisions)
      ]

  abbrev pub audit_entry : TaskRow → DecisionRequest → ℕ → Option ℕ → AuditEntry
  audit_entry task request decision_id user_id = record {
    status = action_name request.action;
    task_id = task.task_id;
    task_type = task.task_type;
    idempotency_key = request.idempotency_key;
    decision_type = decision_type_of request.action;
    decision_id = decision_id;
    user_id = user_id;
    request_fingerprint = request_fingerprint env request;
  }

  abbrev pub resolution_request : TaskRow → DecisionRequest → StoredDecision → String → Request
  resolution_request task request d username = record {
    task_id = task.task_id;
    decision_type = decision_type_of request.action;
    decision_id = d.id;
    resolved_by = username;
    resolved_at = none;
    now = env.now;
  }

  -- The tables after the task is resolved, and the answer.
  unfoldable pub finish :
      ReviewStore
      → TaskRow
      → DecisionRequest
      → StoredDecision
      → Option ℕ
      → Resolution
      → Outcome (DecisionResponse × ReviewStore)
  finish s task request d user_id (refused e) = raised (conflict (resolution_message e))
  finish s task request d user_id (resolved t after) = done (
    record {
      task_id = t.task_id;
      task_status = "resolved";
      decision_type = decision_type_of request.action;
      decision_id = d.id;
      replayed = false;
    },
    record s {
      tasks = after.tasks;
      activity = s.activity ++ (audit_entry task request d.id user_id ∷ []);
    },
  )

  -- The approval of an open task.
  unfoldable pub approve_open :
      ReviewStore
      → TaskRow
      → DecisionRequest
      → Option ℕ
      → String
      → Outcome (DecisionResponse × ReviewStore)
  approve_open s task request user_id username = do
    raise_if (not (task.status == "open")) (conflict "accounting task is not open")
    raise_if (not (contains (decision_types_of task.task_type) (decision_type_of request.action)))
        (conflict "decision type cannot resolve task type")
    decision ← build_decision env task (s.columns task.task_id) request request.action username
    d ← add_decision s.decisions decision
    claims ← claim_evidence s.claims d
    let stored = record s { decisions = s.decisions ++ (d ∷ []); claims = claims } in
        finish stored task request d user_id (
          resolve_reconciliation_task (resolution_request task request d username)
            (resolution_store stored))

  abbrev pub answer_or_approve :
      ReviewStore
      → TaskRow
      → DecisionRequest
      → Option ℕ
      → String
      → Option DecisionResponse
      → Outcome (DecisionResponse × ReviewStore)
  answer_or_approve s task request user_id username (some replayed) = done (replayed, s)
  answer_or_approve s task request user_id username none =
      approve_open s task request user_id username

  unfoldable pub approve_accounting_review_decision :
      ReviewStore → DecisionRequest → Option ℕ → String → Outcome (DecisionResponse × ReviewStore)
  approve_accounting_review_decision s request user_id username = do
    task ← load_task s request.task_id
    replay ← idempotent_replay s task request
    answer_or_approve s task request user_id username replay
