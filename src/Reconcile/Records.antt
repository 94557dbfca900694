-- ===== src/Reconcile/Records.antt =====
-- The links, classifications and tasks that the reconciliation makes. The SHA-256 digest of a key, cut
-- to 20 hexadecimal digits, is the parameter `digest`.
use portfolio_tracker_public.Prelude.{
  String, ◌<>◌, List, [], ◌∷◌, map, Option, none, some, not, if◌then◌else◌, string_eq, contains,
  length, is_none,
}
use portfolio_tracker_public.Prelude.Text.{lower, upper, strip, join_key}
use portfolio_tracker_public.Prelude.Decimal.{Decimal}
use portfolio_tracker_public.Prelude.Int.{pos, abs, neg, ◌-ℤ◌, eqb_ℤ}
use portfolio_tracker_public.Reconcile.Types.{
  MovementEvidence, CostBasisGapEvidence, Evidence, TransferLinkRecord,
  ExternalCashflowClassificationRecord, outgoing, cost_basis, CandidateAction,
  ReconciliationTaskRecord, normalize_datetime,
}
use portfolio_tracker_public.Reconcile.Matching.{
  source_of, asset_of, time_of, quantity_abs, is_deposit, has_authoritative_control_total,
}

abbrev positive_amount : Option Decimal → Option Decimal
positive_amount none = none
positive_amount (some a) = some (abs a)

-- `_evidence`
unfoldable pub evidence_of : MovementEvidence → Evidence
evidence_of m = record {
  source = source_of m;
  evidence_key = m.evidence_key;
  source_event_id = m.source_event_id;
  destination_event_id = m.destination_event_id;
  authoritative_control_total_key = m.authoritative_control_total_key;
}

unfoldable pub transfer_link : MovementEvidence → MovementEvidence → TransferLinkRecord
transfer_link withdrawal deposit =
    let withdrawn = quantity_abs withdrawal in
    record {
      link_group_key = join_key ("transfer" ∷ withdrawal.evidence_key ∷ deposit.evidence_key ∷ []);
      from_evidence = evidence_of withdrawal;
      to_evidence = evidence_of deposit;
      from_evidence_key = withdrawal.evidence_key;
      to_evidence_key = deposit.evidence_key;
      asset_symbol = asset_of withdrawal;
      from_quantity = withdrawn;
      to_quantity = deposit.quantity;
      quantity_delta = abs (withdrawn -ℤ deposit.quantity);
      fee_quantity = none;
      fee_asset_symbol = none;
      amount_usd = positive_amount withdrawal.amount_usd;
      from_source = source_of withdrawal;
      to_source = source_of deposit;
      occurred_at = time_of withdrawal;
      confidence_state = "trusted";
      review_task_id = none;
      created_by = "system";
      decision_source = "deterministic";
      status = "active";
      decision_reason =
          if has_authoritative_control_total withdrawal deposit
          then "authoritative_control_total"
          else "exact_source_destination_identifier";
      capital_effect_usd = pos 0;
    }

abbrev negated : Option Decimal → Option Decimal
negated none = none
negated (some a) = some (neg a)

-- `_external_withdrawal`
unfoldable pub external_withdrawal : MovementEvidence → ExternalCashflowClassificationRecord
external_withdrawal m =
    let amount = positive_amount m.amount_usd in
    record {
      classification_key = join_key ("cashflow" ∷ "external_withdrawal" ∷ m.evidence_key ∷ []);
      evidence = evidence_of m;
      evidence_key = m.evidence_key;
      cashflow_type = "external_withdrawal";
      movement_type = "external_cashflow";
      source = source_of m;
      asset_symbol = asset_of m;
      quantity = quantity_abs m;
      amount_usd = amount;
      occurred_at = time_of m;
      capital_effect_usd = negated amount;
      confidence_state = "trusted";
      materiality_usd = amount;
      review_task_id = none;
      created_by = "system";
      decision_source = "system";
      status = "active";
      decision_reason = "source_policy_xtb_external_withdrawal";
    }

unfoldable pub outgoing_reasons : MovementEvidence → List MovementEvidence → List String
outgoing_reasons withdrawal [] = "unknown_outgoing_crypto" ∷ []
outgoing_reasons withdrawal (c ∷ []) =
    "unknown_outgoing_crypto"
    ∷ (if eqb_ℤ c.quantity (quantity_abs withdrawal)
        then "amount_date_only_candidate"
        else "fee_or_slippage_candidate")
    ∷ []
outgoing_reasons withdrawal (_ ∷ _ ∷ _) =
    "unknown_outgoing_crypto" ∷ "multiple_transfer_candidates" ∷ []

-- `_missing_cost_basis_gaps_from_movements`
unfoldable pub missing_cost_basis_gaps :
    List MovementEvidence → List String → List CostBasisGapEvidence
missing_cost_basis_gaps [] linked_deposit_keys = []
missing_cost_basis_gaps (m ∷ ms) linked_deposit_keys =
    let gaps = missing_cost_basis_gaps ms linked_deposit_keys in
    if contains linked_deposit_keys m.evidence_key
    then gaps
    else if not (is_deposit m)
    then gaps
    else if not (is_none m.amount_usd)
    then gaps
    else record {
      source = source_of m;
      asset_symbol = asset_of m;
      quantity = quantity_abs m;
      occurred_at = m.occurred_at;
      evidence_key = m.evidence_key;
      source_account_id = none;
      basis_scope = "lot";
    }
      ∷ gaps

abbrev action : String → String → CandidateAction
action name effect = record { action = name; effect = effect }

abbrev pub unknown_outgoing_key : String → String
unknown_outgoing_key evidence_key =
    join_key ("task" ∷ "unknown_outgoing_transfer" ∷ evidence_key ∷ [])

abbrev pub missing_cost_basis_key : String → String
missing_cost_basis_key evidence_key = join_key ("task" ∷ "missing_cost_basis" ∷ evidence_key ∷ [])

module _ (digest : String → String) where
  unfoldable pub unknown_outgoing_task :
      MovementEvidence → List MovementEvidence → ReconciliationTaskRecord
  unknown_outgoing_task withdrawal candidates =
      let task_key = unknown_outgoing_key withdrawal.evidence_key in
      record {
        task_id = "task_unknown_outgoing_transfer_" <> digest task_key;
        task_key = task_key;
        task_type = "unknown_outgoing_transfer";
        status = "open";
        severity = "review_required";
        source = source_of withdrawal;
        asset_symbol = asset_of withdrawal;
        quantity = some (quantity_abs withdrawal);
        amount_usd = positive_amount withdrawal.amount_usd;
        occurred_at = time_of withdrawal;
        evidence =
            outgoing withdrawal.evidence_key withdrawal.source_event_id
              withdrawal.destination_event_id (length candidates)
              (map (λ c. c.evidence_key) candidates) (outgoing_reasons withdrawal candidates);
        candidate_actions =
            action "internal_transfer" "capital_effect_usd=0"
            ∷ action "personal_withdrawal" "capital_effect_usd<0"
            ∷ action "unknown" "keep metrics provisional_or_blocked"
            ∷ [];
        affected_metric_scopes =
            "gross_withdrawals" ∷ "net_capital" ∷ "lifetime_pnl" ∷ "period_performance" ∷ [];
        created_by = "system";
      }

  unfoldable pub missing_cost_basis_task : CostBasisGapEvidence → ReconciliationTaskRecord
  missing_cost_basis_task gap =
      let task_key = missing_cost_basis_key gap.evidence_key in
      record {
        task_id = "task_missing_cost_basis_" <> digest task_key;
        task_key = task_key;
        task_type = "missing_cost_basis";
        status = "open";
        severity = "review_required";
        source = lower (strip gap.source);
        asset_symbol = upper (strip gap.asset_symbol);
        quantity = some (abs gap.quantity);
        amount_usd = none;
        occurred_at = normalize_datetime gap.occurred_at;
        evidence =
            cost_basis gap.evidence_key gap.source_account_id gap.basis_scope
              ("missing_cost_basis" ∷ []);
        candidate_actions =
            action "manual_cost_basis" "trust_basis"
            ∷ action "unknown_cost_basis" "keep_basis_blocked"
            ∷ [];
        affected_metric_scopes =
            "cost_basis" ∷ "unrealized_pnl" ∷ "lifetime_pnl" ∷ "period_performance" ∷ [];
        created_by = "system";
      }
