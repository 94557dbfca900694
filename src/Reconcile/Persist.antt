-- ===== src/Reconcile/Persist.antt =====
-- `reconcile_and_persist_movements`: what is added to the session. The queries see the stored rows
-- only, since the sessions of api/app/db/session.py do not flush by themselves. A row has the fields of
-- the record that it is made of.
use portfolio_tracker_public.Prelude.{
  String, List, ◌++◌, Bool, not, ◌&&◌, ◌||◌, ◌==◌, string_eq, any, keep,
}
use portfolio_tracker_public.Reconcile.Types.{
  MovementEvidence, CostBasisGapEvidence, TransferLinkRecord, ExternalCashflowClassificationRecord,
  ReconciliationTaskRecord, ReconciliationResult,
}
use portfolio_tracker_public.Reconcile.Run.{reconcile_accounting_evidence}

-- The rows of the three tables.
pub record Tables : Type 0 where
  pub links : List TransferLinkRecord
  pub tasks : List ReconciliationTaskRecord
  pub cashflows : List ExternalCashflowClassificationRecord

-- The conditions of the three queries, on a row and a record.
unfoldable pub is_existing_link : TransferLinkRecord → TransferLinkRecord → Bool
is_existing_link row link =
    row.status == "active"
    && (row.link_group_key == link.link_group_key
        || row.from_evidence_key == link.from_evidence_key
        || row.to_evidence_key == link.to_evidence_key)

unfoldable pub is_existing_task : ReconciliationTaskRecord → ReconciliationTaskRecord → Bool
is_existing_task row task = row.task_key == task.task_key

unfoldable pub is_existing_cashflow :
    ExternalCashflowClassificationRecord → ExternalCashflowClassificationRecord → Bool
is_existing_cashflow row cashflow =
    row.status == "active"
    && (row.classification_key == cashflow.classification_key
        || row.evidence_key == cashflow.evidence_key)

-- The records for which the query finds no stored row, in order.
unfoldable pub add_missing {ℓ} : {A : Type ℓ} → (A → A → Bool) → List A → List A → List A
add_missing is_existing stored records =
    keep (λ new. not (any (λ row. is_existing row new) stored)) records

unfoldable pub added_rows : Tables → ReconciliationResult → Tables
added_rows stored result = record {
  links = add_missing is_existing_link stored.links result.transfer_links;
  tasks = add_missing is_existing_task stored.tasks result.reconciliation_tasks;
  cashflows =
      add_missing is_existing_cashflow stored.cashflows result.external_cashflow_classifications;
}

-- The rows after a flush that the database accepts.
unfoldable pub flushed : Tables → Tables → Tables
flushed stored added = record {
  links = stored.links ++ added.links;
  tasks = stored.tasks ++ added.tasks;
  cashflows = stored.cashflows ++ added.cashflows;
}

module _ (digest : String → String) where
  -- What the call adds to the session; it returns the result of the reconciliation itself.
  unfoldable pub reconcile_and_persist_movements :
      List MovementEvidence → List CostBasisGapEvidence → Tables → Tables
  reconcile_and_persist_movements movements cost_basis_gaps stored =
      added_rows stored (reconcile_accounting_evidence digest movements cost_basis_gaps)
