-- ===== src/Capital/Types.antt =====
-- The records of the capital summary. A cashflow, an issue and a decision are given by what `_attr`
-- reads of them: an attribute that is absent has the default of the call already, or is `none` where
-- the default is computed; amounts are `Decimal`s or `None`.
use portfolio_tracker_public.Prelude.{String, List, [], ◌∷◌, Option, Bool}
use portfolio_tracker_public.Prelude.Decimal.{Decimal, Ratio}
use portfolio_tracker_public.Confidence.{Confidence}
use portfolio_tracker_public.Capital.Calendar.{Datetime}

pub record CapitalCashflow : Type 0 where
  pub cashflow_type : String
  pub capital_effect_usd : Option Decimal
  pub amount_usd : Option Decimal
  pub occurred_at : Option Datetime
  pub confidence_state : Confidence
  pub status : String
  pub materiality_usd : Option Decimal
  pub reason_code : Option String
  pub review_task_id : Option String

pub record CapitalCurrentValue : Type 0 where
  pub value_usd : Option Decimal
  pub as_of : Option Datetime
  pub holdings_reconciled : Bool
  pub broker_cash_reconciled : Bool
  pub stablecoin_reserve_reconciled : Bool
  pub position_existence_reconciled : Bool
  pub confidence_state : Confidence
  pub reason_codes : List String

pub record CapitalIssue : Type 0 where
  pub reason_code : String
  pub amount_usd : Option Decimal
  pub affected_metric_scopes : List String
  pub severity : Option Confidence
  pub review_task_id : Option String
  pub status : String

-- A transfer link, an import approval or a cost basis decision.
pub record Decision : Type 0 where
  pub status : String
  pub confidence_state : Confidence
  pub affected_metric_scopes : Option (List String)
  pub approved_scope : Option (List String)
  pub materiality_usd : Option Decimal
  pub amount_usd : Option Decimal
  pub cost_basis_usd : Option Decimal
  pub reason_code : Option String
  pub review_task_id : Option String

pub record ConfidenceImpact : Type 0 where
  pub state : Confidence
  pub reason_code : String
  pub review_task_id : Option String
  pub blocked_scopes : List String

pub record CapitalTruthSummary : Type 0 where
  pub gross_deposits_usd : Decimal
  pub gross_withdrawals_usd : Decimal
  pub net_capital_at_work_usd : Decimal
  pub current_portfolio_value_usd : Option Decimal
  pub lifetime_pnl_usd : Option Decimal
  pub return_pct : Option Ratio
  pub first_activity_date : Option Datetime
  pub elapsed_months : Option Ratio
  pub avg_gross_deposit_per_month_usd : Option Ratio
  pub avg_gross_withdrawal_per_month_usd : Option Ratio
  pub avg_net_capital_added_per_month_usd : Option Ratio
  pub confidence_state : Confidence
  pub reason_codes : List String
  pub top_review_task_id : Option String
  pub blocked_metric_scopes : List String

-- The arguments of `calculate_capital_truth`; a `None` among the sequences is empty.
pub record CapitalInputs : Type 0 where
  pub current_value : CapitalCurrentValue
  pub cashflows : List CapitalCashflow
  pub transfer_links : List Decision
  pub import_approvals : List Decision
  pub cost_basis_decisions : List Decision
  pub issues : List CapitalIssue
  pub activity_dates : List Datetime

abbrev pub sensitive_blocking_scopes : List String
sensitive_blocking_scopes =
    "current_value" ∷ "current_portfolio_value" ∷ "cash_reserve" ∷ "broker_cash"
    ∷ "stablecoin_reserve" ∷ "position_existence" ∷ "historical_coverage" ∷ "lifetime_pnl"
    ∷ "period_performance" ∷ "asset_level_lifetime_contribution" ∷ "asset_level_lifetime_pnl"
    ∷ "asset_lifetime_pnl" ∷ []

abbrev pub derived_stat_scopes : List String
derived_stat_scopes =
    "current_value" ∷ "current_portfolio_value" ∷ "net_capital" ∷ "lifetime_pnl"
    ∷ "period_performance" ∷ []

abbrev pub cashflow_metric_scopes : List String
cashflow_metric_scopes = "net_capital" ∷ "lifetime_pnl" ∷ "period_performance" ∷ []
