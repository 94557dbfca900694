-- ===== src/Review/Decisions.antt =====
-- The rows that a decision makes: `_decision_key` and the functions that `_build_decision` chooses among.
use portfolio_tracker_public.Prelude.{String, ◌<>◌, [], ◌∷◌, Option, none, some, not, string_eq}
use portfolio_tracker_public.Prelude.Text.{lower, upper, strip}
use portfolio_tracker_public.Prelude.Int.{pos, abs, neg, ◌-ℤ◌, ltb_ℤ}
use portfolio_tracker_public.Reconcile.Resolve.{TaskRow}
use portfolio_tracker_public.Review.Types.{
  text, TaskColumns, DecisionRequest, AccountingReviewAction, InternalTransferDecision,
  ManualCostBasisDecision, Provenance, TransferLink, CashflowClassification, ImportApproval,
  CostBasisDecision, Decision, transfer, cashflow, approval, basis, internal_transfer,
  personal_withdrawal, import_approval, manual_cost_basis, unknown_cost_basis, unknown, Outcome,
  done, raised, invalid, raise_if, ◌>>=◌, ◌>>◌, Surroundings,
}
use portfolio_tracker_public.Review.Values.{
  value_of, str_or, optional_string, mapping_or_none, task_evidence, source_evidence_key,
  task_quantity, positive, required_string, required_string_list, required_datetime,
  has_manual_basis_value,
}

abbrev pub action_name : AccountingReviewAction → String
action_name internal_transfer = "internal_transfer"
action_name personal_withdrawal = "personal_withdrawal"
action_name import_approval = "import_approval"
action_name manual_cost_basis = "manual_cost_basis"
action_name unknown_cost_basis = "unknown_cost_basis"
action_name unknown = "unknown"

-- `DECISION_TYPE_BY_ACTION`
abbrev pub decision_type_of : AccountingReviewAction → String
decision_type_of internal_transfer = "accounting_transfer_link"
decision_type_of personal_withdrawal = "accounting_external_cashflow_classification"
decision_type_of import_approval = "accounting_import_approval"
decision_type_of manual_cost_basis = "accounting_cost_basis_decision"
decision_type_of unknown_cost_basis = "accounting_cost_basis_decision"
decision_type_of unknown = "accounting_external_cashflow_classification"

abbrev provenance : TaskRow → DecisionRequest → String → String → String → Provenance
provenance task request username confidence_state reason = record {
  confidence_state = confidence_state;
  review_task_id = some task.task_id;
  created_by = username;
  decision_source = "manual";
  status = "active";
  decision_reason = reason;
  notes = request.rationale;
}

module _ (env : Surroundings) where
  unfoldable pub request_fingerprint : DecisionRequest → String
  request_fingerprint request = env.sha256 (env.model_dump request)

  unfoldable pub decision_key : String → TaskRow → DecisionRequest → String
  decision_key prefix task request =
      let digest = env.sha256_20 (
        task.task_id
        <> (":"
            <> (action_name request.action
                <> (":" <> (request.idempotency_key <> (":" <> request_fingerprint request)))))) in
      prefix <> (":" <> (task.task_id <> (":" <> digest)))

  unfoldable pub internal_transfer_decision :
      TaskRow → TaskColumns → DecisionRequest → InternalTransferDecision → String → TransferLink
  internal_transfer_decision task c request details username =
      let from_quantity = task_quantity c in
      let to_quantity = abs details.to_quantity in
      record {
        link_group_key = decision_key "transfer" task request;
        from_evidence = task_evidence task c;
        to_evidence =
            ("source", text (lower (strip details.to_source)))
            ∷ ("evidence_key", text details.to_evidence_key)
            ∷ ("review_task_id", text task.task_id)
            ∷ [];
        from_evidence_key = source_evidence_key c;
        to_evidence_key = details.to_evidence_key;
        asset_symbol = upper c.asset_symbol;
        from_quantity = from_quantity;
        to_quantity = to_quantity;
        quantity_delta = abs (from_quantity -ℤ to_quantity);
        fee_quantity = details.fee_quantity;
        fee_asset_symbol = details.fee_asset_symbol;
        amount_usd = positive c.amount_usd;
        from_source = lower c.source;
        to_source = lower (strip details.to_source);
        occurred_at = c.occurred_at;
        provenance = provenance task request username "trusted" "manual_internal_transfer";
      }

  unfoldable pub personal_withdrawal_decision :
      TaskRow → TaskColumns → DecisionRequest → String → CashflowClassification
  personal_withdrawal_decision task c request username =
      let amount = positive c.amount_usd in
      record {
        classification_key = decision_key "cashflow" task request;
        evidence = task_evidence task c;
        evidence_key = source_evidence_key c;
        cashflow_type = "external_withdrawal";
        movement_type = "external_cashflow";
        source = lower c.source;
        asset_symbol = upper c.asset_symbol;
        quantity = task_quantity c;
        amount_usd = amount;
        occurred_at = c.occurred_at;
        capital_effect_usd = elim amount [ none ↦ none | some a ↦ some (neg a) ];
        materiality_usd = amount;
        provenance = provenance task request username "trusted" "manual_personal_withdrawal";
      }

  unfoldable pub unknown_outgoing_decision :
      TaskRow → TaskColumns → DecisionRequest → String → CashflowClassification
  unknown_outgoing_decision task c request username = record {
    classification_key = decision_key "cashflow" task request;
    evidence = task_evidence task c;
    evidence_key = source_evidence_key c;
    cashflow_type = "not_external_cashflow";
    movement_type = "internal_movement";
    source = lower c.source;
    asset_symbol = upper c.asset_symbol;
    quantity = task_quantity c;
    amount_usd = positive c.amount_usd;
    occurred_at = c.occurred_at;
    capital_effect_usd = some (pos 0);
    materiality_usd = positive c.amount_usd;
    provenance = provenance task request username "blocked" "manual_unknown_outgoing";
  }

  unfoldable pub import_approval_decision :
      TaskRow → TaskColumns → DecisionRequest → String → Outcome ImportApproval
  import_approval_decision task c request username = do
    source_fingerprints ← required_string_list c.evidence "source_fingerprints"
    approved_scope ← required_string_list c.evidence "approved_scope"
    import_scope_id ← required_string c.evidence "import_scope_id"
    coverage_start ← required_datetime env.from_iso c.evidence "coverage_start"
    coverage_end ← required_datetime env.from_iso c.evidence "coverage_end"
    raise_if (ltb_ℤ coverage_end coverage_start)
        (invalid "import approval coverage_start exceeds coverage_end")
    done (record {
      approval_key = decision_key "import" task request;
      source = lower c.source;
      source_account_id = optional_string (value_of c.evidence "source_account_id");
      import_scope_id = import_scope_id;
      source_fingerprints = source_fingerprints;
      coverage_start = coverage_start;
      coverage_end = coverage_end;
      approved_scope = approved_scope;
      control_totals = mapping_or_none (value_of c.evidence "control_totals");
      provenance = provenance task request username "trusted" "manual_import_approval";
    })

  -- The row for a manual basis, whose details are there, and the row for an unknown basis.
  abbrev pub manual_basis :
      TaskRow → TaskColumns → DecisionRequest → ManualCostBasisDecision → String → CostBasisDecision
  manual_basis task c request details username = record {
    basis_key = decision_key "basis" task request;
    decision_type = "manual_cost_basis";
    asset_symbol = upper c.asset_symbol;
    source = lower c.source;
    source_account_id = optional_string (value_of c.evidence "source_account_id");
    basis_scope = str_or (value_of c.evidence "basis_scope") "asset_global";
    evidence = task_evidence task c;
    quantity = details.quantity;
    cost_basis_usd = details.cost_basis_usd;
    unit_cost_usd = details.unit_cost_usd;
    effective_at = c.occurred_at;
    basis_method = details.basis_method;
    affected_metric_scopes = c.affected_metric_scopes;
    provenance = provenance task request username "trusted" "manual_cost_basis";
  }

  abbrev pub unknown_basis : TaskRow → TaskColumns → DecisionRequest → String → CostBasisDecision
  unknown_basis task c request username = record {
    basis_key = decision_key "basis" task request;
    decision_type = "unknown_cost_basis";
    asset_symbol = upper c.asset_symbol;
    source = lower c.source;
    source_account_id = optional_string (value_of c.evidence "source_account_id");
    basis_scope = str_or (value_of c.evidence "basis_scope") "asset_global";
    evidence = task_evidence task c;
    quantity = c.quantity;
    cost_basis_usd = none;
    unit_cost_usd = none;
    effective_at = c.occurred_at;
    basis_method = none;
    affected_metric_scopes = c.affected_metric_scopes;
    provenance = provenance task request username "blocked" "unknown_cost_basis";
  }

  unfoldable pub manual_basis_decision :
      TaskRow
      → TaskColumns
      → DecisionRequest
      → Option ManualCostBasisDecision
      → String
      → Outcome CostBasisDecision
  manual_basis_decision task c request none username =
      raised (invalid "cost_basis details are required")
  manual_basis_decision task c request (some details) username = do
    has_value ← has_manual_basis_value details
    raise_if (not has_value)
        (invalid "manual_cost_basis requires cost_basis_usd or quantity and unit_cost_usd")
    done (manual_basis task c request details username)

  abbrev pub transfer_decision :
      TaskRow
      → TaskColumns
      → DecisionRequest
      → Option InternalTransferDecision
      → String
      → Outcome Decision
  transfer_decision task c request none username =
      raised (invalid "internal_transfer details are required")
  transfer_decision task c request (some details) username =
      done (transfer (internal_transfer_decision task c request details username))

  -- `_build_decision`, with the two branches of `_cost_basis_decision`.
  unfoldable pub build_decision :
      TaskRow → TaskColumns → DecisionRequest → AccountingReviewAction → String → Outcome Decision
  build_decision task c request internal_transfer username =
      transfer_decision task c request request.transfer_details username
  build_decision task c request personal_withdrawal username =
      done (cashflow (personal_withdrawal_decision task c request username))
  build_decision task c request unknown username =
      done (cashflow (unknown_outgoing_decision task c request username))
  build_decision task c request import_approval username =
      import_approval_decision task c request username >>= λ d. done (approval d)
  build_decision task c request manual_cost_basis username =
      manual_basis_decision task c request request.cost_basis username >>= λ d. done (basis d)
  build_decision task c request unknown_cost_basis username =
      done (basis (unknown_basis task c request username))
