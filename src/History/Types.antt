-- ===== src/History/Types.antt =====
-- The records that a historical value is found from; `Performance.Types.HistoricalValueResult` is the
-- result. A time is a number of microseconds in one time zone. A quantity is in units of 10^-10 and a
-- price in units of 10^-6, so that their product is a Decimal.
use portfolio_tracker_public.Prelude.{String, List, Option, Bool}
use portfolio_tracker_public.Prelude.Int.{ℤ}
use portfolio_tracker_public.Prelude.Decimal.{Decimal}
use portfolio_tracker_public.Confidence.{Confidence}

pub record HistoricalValueAnchor : Type 0 where
  pub captured_at : ℤ
  pub value_usd : Option Decimal
  pub source : String
  pub confidence_state : Confidence
  pub reason_codes : List String

pub record HistoricalPosition : Type 0 where
  pub symbol : String
  pub quantity : ℤ
  pub source : String

pub record SourceCoverageWindow : Type 0 where
  pub source : String
  pub start_at : ℤ
  pub end_at : Option ℤ
  pub confidence_state : Confidence

-- What the lookup of a price answers, as far as it is read.
pub record HistoricalPriceResult : Type 0 where
  pub price_usd : Option ℤ

pub record HistoryMetricVisibility : Type 0 where
  pub confidence_state : Confidence
  pub reason_codes : List String
  pub lifetime_pnl_visible : Bool
  pub period_performance_visible : Bool

-- The arguments of `resolve_historical_value`.
pub record HistoryInputs : Type 0 where
  pub as_of : ℤ
  pub exact_anchors : List HistoricalValueAnchor
  pub positions : List HistoricalPosition
  pub source_coverage : List SourceCoverageWindow
  pub price_lookup : String → ℤ → HistoricalPriceResult
  pub transaction_ledger_complete : Bool
  pub cashflow_classifications_complete : Bool
  pub accounting_decisions_complete : Bool
