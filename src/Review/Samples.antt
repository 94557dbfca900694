-- ===== src/Review/Samples.antt =====
-- Test data: surroundings, a task and a request.
use portfolio_tracker_public.Prelude.{
  ℕ, suc, ◌<◌, ◌≡◌, refl, String, List, [], ◌∷◌, none, some, true, false, Bool-cases, inl, inr,
  ◌==◌, string_eq, option_eq, if◌then◌else◌, ltb, eqb, arith,
}
use portfolio_tracker_public.Prelude.Int.{pos}
use portfolio_tracker_public.Reconcile.Resolve.{TaskRow}
use portfolio_tracker_public.Review.Types.{
  text, personal_withdrawal, DecisionRequest, TaskColumns, StoredDecision, ReviewStore,
  Surroundings,
}
use portfolio_tracker_public.Review.Tables.{table_of, find_stored}
use portfolio_tracker_public.Review.Keyed.{IsFresh}

abbrev largest : List StoredDecision → ℕ
largest [] = 0
largest (d ∷ ds) = let m = largest ds in if ltb m d.id then d.id else m

-- The digests are their arguments, and a new id is one above all ids.
abbrev pub surroundings : Surroundings
surroundings = record {
  sha256 = λ s. s;
  sha256_20 = λ s. s;
  model_dump = λ r. r.idempotency_key;
  from_iso = λ s. none;
  new_id = λ t ds. suc (largest ds);
  admits = λ d ds. true;
  has_triggers = true;
  now = pos 7;
}

find_stored_above :
    (t : String) (n : ℕ) (ds : List StoredDecision) → largest ds < n → find_stored t n ds ≡ none
unfolding find_stored
find_stored_above t n [] h = refl
find_stored_above t n (d ∷ ds) h = elim (Bool-cases (table_of d.decision == t)) [
  | inl e ↦
      let rest = find_stored_above t n ds (ground arith) in
      let differ : eqb d.id n ≡ false = ground arith in rw (e, differ) rest
  | inr e ↦ let rest = find_stored_above t n ds (ground arith) in rw e rest
]

pub surroundings-IsFresh : IsFresh surroundings
surroundings-IsFresh t ds = find_stored_above t (suc (largest ds)) ds (omega arith)

abbrev pub waiting_task : TaskRow
waiting_task = record {
  task_id = "task-1";
  task_type = "unknown_outgoing_transfer";
  status = "open";
  resolved_at = none;
  resolved_by = none;
  resolved_by_decision_type = none;
  resolved_by_decision_id = none;
}

abbrev task_columns : TaskColumns
task_columns = record {
  task_key = "unknown_outgoing:1";
  source = "Binance";
  asset_symbol = "btc";
  quantity = some (pos 3);
  amount_usd = some (pos 90);
  occurred_at = pos 5;
  evidence = ("source_evidence_key", text "binance:withdrawal:1") ∷ [];
  affected_metric_scopes = [];
}

abbrev pub store_before : ReviewStore
store_before = record {
  tasks = waiting_task ∷ [];
  columns = λ id. task_columns;
  decisions = [];
  claims = [];
  activity = [];
}

abbrev pub withdrawal_request : DecisionRequest
withdrawal_request = record {
  task_id = "task-1";
  action = personal_withdrawal;
  idempotency_key = "k1";
  rationale = none;
  transfer_details = none;
  cost_basis = none;
}
