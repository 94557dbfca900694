-- ===== src/Reconcile/Run.antt =====
-- `reconcile_accounting_evidence`: the loop over the movements, and the gaps after it.
use portfolio_tracker_public.Prelude.{
  String, List, [], ◌∷◌, map, Option, none, some, not, if◌then◌else◌, ◌==◌, string_eq, contains,
  keep,
}
use portfolio_tracker_public.Prelude.Dict.{Dict, setdefault, values}
use portfolio_tracker_public.Reconcile.Types.{
  MovementEvidence, CostBasisGapEvidence, TransferLinkRecord, ExternalCashflowClassificationRecord,
  ReconciliationTaskRecord, ReconciliationResult,
}
use portfolio_tracker_public.Reconcile.Matching.{
  tracked_crypto_sources, dedupe_movements, source_of, is_outgoing, is_deposit, transfer_candidates,
  deterministic_candidate,
}
use portfolio_tracker_public.Reconcile.Records.{
  transfer_link, external_withdrawal, unknown_outgoing_task, missing_cost_basis_task,
  missing_cost_basis_gaps,
}

-- The dicts that the loop fills.
pub record Found : Type 0 where
  pub transfer_links : Dict String TransferLinkRecord
  pub tasks : Dict String ReconciliationTaskRecord
  pub cashflows : Dict String ExternalCashflowClassificationRecord

abbrev pub nothing_found : Found
nothing_found = record { transfer_links = []; tasks = []; cashflows = [] }

module _ (digest : String → String) where
  -- The end of the loop's body, by what `_deterministic_candidate` gave.
  unfoldable pub add_match :
      MovementEvidence → List MovementEvidence → Found → Option MovementEvidence → Found
  add_match m candidates found (some deposit) =
      let link = transfer_link m deposit in
      record found { transfer_links = setdefault link.link_group_key link found.transfer_links }
  add_match m candidates found none =
      let task = unknown_outgoing_task digest m candidates in
      record found { tasks = setdefault task.task_key task found.tasks }

  unfoldable pub reconcile_movement : List MovementEvidence → Found → MovementEvidence → Found
  reconcile_movement deposits found m =
      let candidates = transfer_candidates m deposits in
      let cashflow = external_withdrawal m in
      if not (is_outgoing m)
      then found
      else if source_of m == "xtb"
      then record found {
        cashflows = setdefault cashflow.classification_key cashflow found.cashflows;
      }
      else if not (contains tracked_crypto_sources (source_of m))
      then found
      else add_match m candidates found (deterministic_candidate m candidates)

  unfoldable pub reconcile_each : List MovementEvidence → Found → List MovementEvidence → Found
  reconcile_each deposits found [] = found
  reconcile_each deposits found (m ∷ ms) =
      reconcile_each deposits (reconcile_movement deposits found m) ms

  unfoldable pub add_gap_tasks :
      Dict String ReconciliationTaskRecord
      → List CostBasisGapEvidence
      → Dict String ReconciliationTaskRecord
  add_gap_tasks tasks [] = tasks
  add_gap_tasks tasks (gap ∷ gaps) =
      let task = missing_cost_basis_task digest gap in
      add_gap_tasks (setdefault task.task_key task tasks) gaps

  -- The dicts after the loop over the movements.
  unfoldable pub found_in : List MovementEvidence → Found
  found_in movements =
      let unique_movements = dedupe_movements movements in
      reconcile_each (keep is_deposit unique_movements) nothing_found unique_movements

  unfoldable pub linked_deposit_keys : List MovementEvidence → List String
  linked_deposit_keys movements =
      map (λ link. link.to_evidence_key) (values (found_in movements).transfer_links)

  unfoldable pub all_tasks :
      List MovementEvidence → List CostBasisGapEvidence → Dict String ReconciliationTaskRecord
  all_tasks movements cost_basis_gaps =
      add_gap_tasks
        (add_gap_tasks (found_in movements).tasks
          (missing_cost_basis_gaps (dedupe_movements movements) (linked_deposit_keys movements)))
        cost_basis_gaps

  unfoldable pub reconcile_accounting_evidence :
      List MovementEvidence → List CostBasisGapEvidence → ReconciliationResult
  reconcile_accounting_evidence movements cost_basis_gaps = record {
    transfer_links = values (found_in movements).transfer_links;
    reconciliation_tasks = values (all_tasks movements cost_basis_gaps);
    external_cashflow_classifications = values (found_in movements).cashflows;
  }
