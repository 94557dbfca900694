-- ===== src/Review/Types.antt =====
-- The requests of a reviewer (shared/python/contracts.py), the rows of the tables that the review
-- reads and writes (api/app/db/models.py), and how an operation can end.
use portfolio_tracker_public.Prelude.{ℕ, String, List, Option, Bool, if◌then◌else◌}
use portfolio_tracker_public.Prelude.Int.{ℤ}
use portfolio_tracker_public.Prelude.Dict.{Dict}
use portfolio_tracker_public.Prelude.Decimal.{Decimal}
use portfolio_tracker_public.Reconcile.Resolve.{TaskRow}

-- A value in the evidence of a task. Where it is no text, what `str` makes of it stands with it, and
-- where it is not plain whether it is true in a test, that does.
pub data Value : Type 0 where
  null : Value
  text : String → Value
  texts : List String → String → Value
  moment : ℤ → String → Value
  mapping : Bool → String → Value
  scalar : Bool → String → Value

pub data AccountingReviewAction : Type 0 where
  internal_transfer personal_withdrawal import_approval : AccountingReviewAction
  manual_cost_basis unknown_cost_basis unknown : AccountingReviewAction

pub record InternalTransferDecision : Type 0 where
  pub to_source : String
  pub to_evidence_key : String
  pub to_quantity : Decimal
  pub fee_quantity : Option Decimal
  pub fee_asset_symbol : Option String

pub record ManualCostBasisDecision : Type 0 where
  pub quantity : Option Decimal
  pub cost_basis_usd : Option Decimal
  pub unit_cost_usd : Option Decimal
  pub basis_method : Option String

pub record DecisionRequest : Type 0 where
  pub task_id : String
  pub action : AccountingReviewAction
  pub idempotency_key : String
  pub rationale : Option String
  pub transfer_details : Option InternalTransferDecision
  pub cost_basis : Option ManualCostBasisDecision

pub record DecisionResponse : Type 0 where
  pub task_id : String
  pub task_status : String
  pub decision_type : String
  pub decision_id : ℕ
  pub replayed : Bool

-- The columns of a task that the review reads and no code here writes; `Reconcile.Resolve.TaskRow` has
-- the others. An `occurred_at` is an instant, as `_utc` makes it.
pub record TaskColumns : Type 0 where
  pub task_key : String
  pub source : String
  pub asset_symbol : String
  pub quantity : Option Decimal
  pub amount_usd : Option Decimal
  pub occurred_at : ℤ
  pub evidence : Dict String Value
  pub affected_metric_scopes : List String

-- The columns that the rows of all decisions share.
pub record Provenance : Type 0 where
  pub confidence_state : String
  pub review_task_id : Option String
  pub created_by : String
  pub decision_source : String
  pub status : String
  pub decision_reason : String
  pub notes : Option String

pub record TransferLink : Type 0 where
  pub link_group_key : String
  pub from_evidence : Dict String Value
  pub to_evidence : Dict String Value
  pub from_evidence_key : String
  pub to_evidence_key : String
  pub asset_symbol : String
  pub from_quantity : Decimal
  pub to_quantity : Decimal
  pub quantity_delta : Decimal
  pub fee_quantity : Option Decimal
  pub fee_asset_symbol : Option String
  pub amount_usd : Option Decimal
  pub from_source : String
  pub to_source : String
  pub occurred_at : ℤ
  pub provenance : Provenance

pub record CashflowClassification : Type 0 where
  pub classification_key : String
  pub evidence : Dict String Value
  pub evidence_key : String
  pub cashflow_type : String
  pub movement_type : String
  pub source : String
  pub asset_symbol : String
  pub quantity : Decimal
  pub amount_usd : Option Decimal
  pub occurred_at : ℤ
  pub capital_effect_usd : Option Decimal
  pub materiality_usd : Option Decimal
  pub provenance : Provenance

pub record ImportApproval : Type 0 where
  pub approval_key : String
  pub source : String
  pub source_account_id : Option String
  pub import_scope_id : String
  pub source_fingerprints : List String
  pub coverage_start : ℤ
  pub coverage_end : ℤ
  pub approved_scope : List String
  pub control_totals : Option Value
  pub provenance : Provenance

pub record CostBasisDecision : Type 0 where
  pub basis_key : String
  pub decision_type : String
  pub asset_symbol : String
  pub source : String
  pub source_account_id : Option String
  pub basis_scope : String
  pub evidence : Dict String Value
  pub quantity : Option Decimal
  pub cost_basis_usd : Option Decimal
  pub unit_cost_usd : Option Decimal
  pub effective_at : ℤ
  pub basis_method : Option String
  pub affected_metric_scopes : List String
  pub provenance : Provenance

pub data Decision : Type 0 where
  transfer : TransferLink → Decision
  cashflow : CashflowClassification → Decision
  approval : ImportApproval → Decision
  basis : CostBasisDecision → Decision

pub record StoredDecision : Type 0 where
  pub id : ℕ
  pub decision : Decision

pub record EvidenceClaim : Type 0 where
  pub evidence_key : String
  pub source_table : String
  pub source_id : ℕ
  pub claim_role : String

pub record AuditEntry : Type 0 where
  pub status : String
  pub task_id : String
  pub task_type : String
  pub idempotency_key : String
  pub decision_type : String
  pub decision_id : ℕ
  pub user_id : Option ℕ
  pub request_fingerprint : String

-- The tables. `columns` gives a task's other columns by its id.
pub record ReviewStore : Type 0 where
  pub tasks : List TaskRow
  pub columns : String → TaskColumns
  pub decisions : List StoredDecision
  pub claims : List EvidenceClaim
  pub activity : List AuditEntry

-- AccountingReviewNotFound, AccountingReviewDecisionConflict, any other AccountingReviewError, another
-- ValueError, and the database's IntegrityError.
pub data ReviewError : Type 0 where
  not_found : ReviewError
  conflict : String → ReviewError
  invalid : String → ReviewError
  value_error : ReviewError
  integrity_error : ReviewError

pub data Outcome {ℓ} (A : Type ℓ) : Type ℓ where
  done : A → Outcome A
  raised : ReviewError → Outcome A

infixl 5 ◌>>=◌ ◌>>◌
abbrev pub ◌>>=◌ {ℓ κ} : {A : Type ℓ} {B : Type κ} → Outcome A → (A → Outcome B) → Outcome B
done a >>= f = f a
raised e >>= f = raised e

abbrev pub ◌>>◌ {ℓ κ} : {A : Type ℓ} {B : Type κ} → Outcome A → Outcome B → Outcome B
m >> n = m >>= λ a. n

-- `if test: raise e`
abbrev pub raise_if : Bool → ReviewError → Outcome (Unit {0})
raise_if test e = if test then raised e else done tt

-- What the surroundings answer: `sha256` gives a hexadecimal digest and `sha256_20` its first 20
-- digits, `model_dump` is the JSON text of a request without its missing fields, `from_iso` is
-- `datetime.fromisoformat`, `new_id` is the id that the database gives to a new row of a decision's
-- table, `admits` tells whether the constraints of that table let the row in, `has_triggers` whether
-- the database has the triggers of migration 00008, and `now` is the clock.
pub record Surroundings : Type 0 where
  pub sha256 : String → String
  pub sha256_20 : String → String
  pub model_dump : DecisionRequest → String
  pub from_iso : String → Option ℤ
  pub new_id : String → List StoredDecision → ℕ
  pub admits : Decision → List StoredDecision → Bool
  pub has_triggers : Bool
  pub now : ℤ
