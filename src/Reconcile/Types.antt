-- ===== src/Reconcile/Types.antt =====
-- The records of the reconciliation. A point in time is its wall clock in microseconds since the
-- epoch with its offset from UTC, where it has one; normalised, it is the number of microseconds in
-- UTC. The dicts of evidence are records.
use portfolio_tracker_public.Prelude.{ℕ, String, List, Option, none, some}
use portfolio_tracker_public.Prelude.Int.{ℤ, ◌-ℤ◌}
use portfolio_tracker_public.Prelude.Decimal.{Decimal}

pub record Timestamp : Type 0 where
  pub wall_clock : ℤ
  pub utc_offset : Option ℤ

-- `_normalize_datetime`: a time without an offset is taken as UTC.
unfoldable pub normalize_datetime : Timestamp → ℤ
normalize_datetime t = elim t.utc_offset [
  | none ↦ t.wall_clock
  | some offset ↦ t.wall_clock -ℤ offset
]

pub record MovementEvidence : Type 0 where
  pub source : String
  pub tx_type : String
  pub asset_symbol : String
  pub quantity : Decimal
  pub occurred_at : Timestamp
  pub evidence_key : String
  pub source_event_id : Option String
  pub destination_event_id : Option String
  pub authoritative_control_total_key : Option String
  pub amount_usd : Option Decimal

pub record CostBasisGapEvidence : Type 0 where
  pub source : String
  pub asset_symbol : String
  pub quantity : Decimal
  pub occurred_at : Timestamp
  pub evidence_key : String
  pub source_account_id : Option String
  pub basis_scope : String

-- The dict that `_evidence` returns.
pub record Evidence : Type 0 where
  pub source : String
  pub evidence_key : String
  pub source_event_id : Option String
  pub destination_event_id : Option String
  pub authoritative_control_total_key : Option String

pub record TransferLinkRecord : Type 0 where
  pub link_group_key : String
  pub from_evidence : Evidence
  pub to_evidence : Evidence
  pub from_evidence_key : String
  pub to_evidence_key : String
  pub asset_symbol : String
  pub from_quantity : Decimal
  pub to_quantity : Decimal
  pub quantity_delta : Decimal
  pub fee_quantity : Option Decimal
  pub fee_asset_symbol : Option String
  pub amount_usd : Option Decimal
  pub from_source : String
  pub to_source : String
  pub occurred_at : ℤ
  pub confidence_state : String
  pub review_task_id : Option String
  pub created_by : String
  pub decision_source : String
  pub status : String
  pub decision_reason : String
  pub capital_effect_usd : Decimal

pub record ExternalCashflowClassificationRecord : Type 0 where
  pub classification_key : String
  pub evidence : Evidence
  pub evidence_key : String
  pub cashflow_type : String
  pub movement_type : String
  pub source : String
  pub asset_symbol : String
  pub quantity : Decimal
  pub amount_usd : Option Decimal
  pub occurred_at : ℤ
  pub capital_effect_usd : Option Decimal
  pub confidence_state : String
  pub materiality_usd : Option Decimal
  pub review_task_id : Option String
  pub created_by : String
  pub decision_source : String
  pub status : String
  pub decision_reason : String

-- The evidence dict of a task, which has other keys for each type of task.
pub data TaskEvidence : Type 0 where
  outgoing :
      (source_evidence_key : String) (source_event_id destination_event_id : Option String)
      (candidate_count : ℕ) (candidate_evidence_keys reasons : List String)
      → TaskEvidence
  cost_basis :
      (source_evidence_key : String) (source_account_id : Option String) (basis_scope : String)
      (reasons : List String)
      → TaskEvidence

pub record CandidateAction : Type 0 where
  pub action : String
  pub effect : String

pub record ReconciliationTaskRecord : Type 0 where
  pub task_id : String
  pub task_key : String
  pub task_type : String
  pub status : String
  pub severity : String
  pub source : String
  pub asset_symbol : String
  pub quantity : Option Decimal
  pub amount_usd : Option Decimal
  pub occurred_at : ℤ
  pub evidence : TaskEvidence
  pub candidate_actions : List CandidateAction
  pub affected_metric_scopes : List String
  pub created_by : String

pub record ReconciliationResult : Type 0 where
  pub transfer_links : List TransferLinkRecord
  pub reconciliation_tasks : List ReconciliationTaskRecord
  pub external_cashflow_classifications : List ExternalCashflowClassificationRecord
