-- ===== src/Performance/Types.antt =====
-- The records of the rolling performance. A datetime is a number of microseconds in one time zone; an
-- `occurred_at` that is no datetime is `none`.
use portfolio_tracker_public.Prelude.{ℕ, String, List, Option, Bool}
use portfolio_tracker_public.Prelude.Int.{ℤ}
use portfolio_tracker_public.Prelude.Decimal.{Decimal}
use portfolio_tracker_public.Confidence.{Confidence}

-- `HistoricalValueResult` of api/app/services/accounting_history.py
pub record HistoricalValueResult : Type 0 where
  pub as_of : ℤ
  pub value_usd : Option Decimal
  pub source : String
  pub confidence_state : Confidence
  pub reason_codes : List String
  pub sensitive_metrics_visible : Bool

-- A cashflow as it is read here: its confidence is still a text.
pub record PeriodCashflow : Type 0 where
  pub cashflow_type : String
  pub capital_effect_usd : Option Decimal
  pub amount_usd : Option Decimal
  pub occurred_at : Option ℤ
  pub confidence_state : String
  pub status : String
  pub materiality_usd : Option Decimal
  pub reason_code : Option String

-- An issue after the defaults.
pub record PeriodIssue : Type 0 where
  pub status : String
  pub affected_metric_scopes : List String
  pub occurred_at : Option ℤ
  pub reason_code : String

pub record BoundaryImpact : Type 0 where
  pub value_usd : Option Decimal
  pub confidence_state : Confidence
  pub effective_confidence_state : Confidence
  pub reason_codes : List String

pub record PeriodCashflows : Type 0 where
  pub deposits_usd : Decimal
  pub withdrawals_usd : Decimal
  pub confidence_states : List Confidence
  pub reason_codes : List String

pub record IssueImpact : Type 0 where
  pub confidence_state : Confidence
  pub reason_code : String

pub record RollingPerformancePeriod : Type 0 where
  pub label : String
  pub days : ℕ
  pub start_at : ℤ
  pub end_at : ℤ
  pub starting_value_usd : Option Decimal
  pub ending_value_usd : Option Decimal
  pub deposits_usd : Decimal
  pub withdrawals_usd : Decimal
  pub investment_gain_usd : Option Decimal
  pub confidence_state : Confidence
  pub reason_codes : List String
  pub start_boundary_confidence_state : Confidence
  pub end_boundary_confidence_state : Confidence
  pub period_performance_visible : Bool

pub record RollingPerformanceSummary : Type 0 where
  pub as_of : ℤ
  pub default_period_label : String
  pub periods : List RollingPerformancePeriod
