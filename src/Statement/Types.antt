-- ===== src/Statement/Types.antt =====
-- The evidence of a statement and its summary. A quantity and the amount of a cash operation are in
-- units of 10^-10 and a price in units of 10^-6; a price that is worked out is its two terms. The
-- messages of the issues are left out.
use portfolio_tracker_public.Prelude.{ℕ, String, List, Option, Bool}
use portfolio_tracker_public.Prelude.Int.{ℤ}
use portfolio_tracker_public.Prelude.Decimal.{Decimal, Ratio}

pub record XtbCurrentPositionEvidence : Type 0 where
  pub symbol : String
  pub quantity : ℤ
  pub market_price_usd : Option ℤ
  pub current_value_usd : Option Decimal

pub record XtbCashActivityEvidence : Type 0 where
  pub tx_type : String
  pub amount_usd : ℤ
  pub symbol : String
  pub description : String
  pub fee_usd : Decimal

pub record XtbClosedPositionPlEvidence : Type 0 where
  pub symbol : String
  pub gross_pl_usd : Decimal

pub data XtbStatementSourceKind : Type 0 where
  full_statement daily_pdf gmail_daily_pdf : XtbStatementSourceKind

pub record XtbStatementEvidence : Type 0 where
  pub source_kind : XtbStatementSourceKind
  pub current_positions : List XtbCurrentPositionEvidence
  pub current_positions_proved : Bool
  pub cash_operations : List XtbCashActivityEvidence
  pub closed_position_pl_rows : List XtbClosedPositionPlEvidence
  pub broker_cash_balance_usd : Option Decimal
  pub reconciled_against_authoritative_statement : Bool

pub record XtbStatementIssue : Type 0 where
  pub code : String
  pub scope : String
  pub symbol : Option String

pub record XtbConfidenceScope : Type 0 where
  pub state : String
  pub issues : List XtbStatementIssue

pub record XtbBrokerCashSummary : Type 0 where
  pub amount_usd : Decimal
  pub is_trusted : Bool
  pub issues : List XtbStatementIssue

pub record XtbAmountRollup : Type 0 where
  pub total_usd : Decimal
  pub count : ℕ

pub record XtbCurrentPositionSummary : Type 0 where
  pub symbol : String
  pub quantity : ℤ
  pub market_price_usd : Ratio
  pub current_value_usd : Decimal

pub record XtbCurrentValueStatementSummary : Type 0 where
  pub source_authority : String
  pub current_positions : List XtbCurrentPositionSummary
  pub current_positions_value_usd : Decimal
  pub broker_cash : XtbBrokerCashSummary
  pub current_value_usd : Decimal
  pub current_value_trusted : Bool
  pub fees_taxes : XtbAmountRollup
  pub closed_position_pl : XtbAmountRollup
  pub current_value : XtbConfidenceScope
  pub broker_cash_confidence : XtbConfidenceScope
  pub position_existence : XtbConfidenceScope
  pub issues : List XtbStatementIssue
