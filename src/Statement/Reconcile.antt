-- ===== src/Statement/Reconcile.antt =====
-- `reconcile_xtb_current_value_statement` and the functions that it calls; the cash ledger is that of
-- CashLedger.
use portfolio_tracker_public.Prelude.{
  ◌+◌, String, List, [], ◌∷◌, ◌++◌, map, Option, none, some, Bool, true, false, not, ◌&&◌, ◌==◌,
  string_eq, contains, if◌then◌else◌, get_or, keep, length, concat_map,
}
use portfolio_tracker_public.Prelude.Text.{lower}
use portfolio_tracker_public.Prelude.Int.{ℤ, pos, abs, ◌+ℤ◌, ◌*ℤ◌, eqb_ℤ}
use portfolio_tracker_public.Prelude.Decimal.{Decimal, Ratio}
use portfolio_tracker_public.CashLedger.Types.{XtbTransaction, XtbCashLedgerIssue}
use portfolio_tracker_public.CashLedger.Ledger.{calculate_xtb_cash_ledger}
use portfolio_tracker_public.Statement.Types.{
  XtbCurrentPositionEvidence, XtbCashActivityEvidence, XtbClosedPositionPlEvidence,
  XtbStatementSourceKind, full_statement, daily_pdf, gmail_daily_pdf, XtbStatementEvidence,
  XtbStatementIssue, XtbConfidenceScope, XtbBrokerCashSummary, XtbAmountRollup,
  XtbCurrentPositionSummary, XtbCurrentValueStatementSummary,
}

abbrev fee_tax_types : List String
fee_tax_types = "fee" ∷ "commission" ∷ "stamp_duty" ∷ "swap" ∷ "tax" ∷ []

-- `CASH_LEDGER_TYPE_ALIASES.get(tx_type.lower(), tx_type)`
abbrev pub ledger_type : String → String
ledger_type tx_type = if lower tx_type == "tax" then "fee" else tx_type

unfoldable pub cash_ledger_row : XtbCashActivityEvidence → XtbTransaction
cash_ledger_row o = record {
  id = none;
  institution = some "xtb";
  tx_type = some (ledger_type o.tx_type);
  asset_symbol = some o.symbol;
  symbol = none;
  quantity = some (abs o.amount_usd);
  price_usd = none;
  total_usd = some (abs o.amount_usd *ℤ pos 1_000_000);
  fee = some (abs o.fee_usd);
  fee_currency = some "USD";
  description = some o.description;
  raw_data = some (record { description = none; original_type = none });
}

abbrev pub cash_ledger_rows : List XtbCashActivityEvidence → List XtbTransaction
cash_ledger_rows operations = map cash_ledger_row operations

abbrev summary_of : XtbCurrentPositionEvidence → Ratio → Decimal → List XtbCurrentPositionSummary
summary_of p price value =
    record {
      symbol = p.symbol;
      quantity = p.quantity;
      market_price_usd = price;
      current_value_usd = value;
    }
    ∷ []

abbrev price_by_value : ℤ → Decimal → Ratio
price_by_value quantity value =
    if eqb_ℤ quantity (pos 0)
    then record { num = pos 0; den = pos 1 }
    else record { num = value; den = quantity }

-- A position by its price and its value.
unfoldable pub summarize_by :
    XtbCurrentPositionEvidence → Option ℤ → Option Decimal → List XtbCurrentPositionSummary
summarize_by p none none = []
summarize_by p none (some value) = summary_of p (price_by_value p.quantity value) value
summarize_by p (some price) none =
    summary_of p (record { num = price; den = pos 1 }) (p.quantity *ℤ price)
summarize_by p (some price) (some value) = summary_of p (record { num = price; den = pos 1 }) value

unfoldable pub summarize_positions :
    List XtbCurrentPositionEvidence → List XtbCurrentPositionSummary
summarize_positions positions =
    concat_map
      (λ (p : XtbCurrentPositionEvidence). summarize_by p p.market_price_usd p.current_value_usd)
      positions

unfoldable pub value_issue :
    XtbCurrentPositionEvidence → Option ℤ → Option Decimal → List XtbStatementIssue
value_issue p none none =
    record {
      code = "missing_position_current_value";
      scope = "position_existence";
      symbol = some p.symbol;
    }
    ∷ []
value_issue p none (some value) = []
value_issue p (some price) value = []

unfoldable pub evidence_issue : List XtbCurrentPositionEvidence → Bool → List XtbStatementIssue
evidence_issue [] false =
    record { code = "missing_position_evidence"; scope = "position_existence"; symbol = none } ∷ []
evidence_issue [] true = []
evidence_issue (p ∷ ps) proved = []

unfoldable pub position_issues : List XtbCurrentPositionEvidence → Bool → List XtbStatementIssue
position_issues positions proved =
    evidence_issue positions proved
    ++ concat_map
        (λ (p : XtbCurrentPositionEvidence). value_issue p p.market_price_usd p.current_value_usd)
        positions

abbrev is_fee_tax : XtbCashActivityEvidence → Bool
is_fee_tax o = contains fee_tax_types (lower o.tx_type)

abbrev sum_of : List Decimal → Decimal
sum_of [] = pos 0
sum_of (x ∷ xs) = x +ℤ sum_of xs

unfoldable pub fees_taxes_of : List XtbCashActivityEvidence → XtbAmountRollup
fees_taxes_of operations =
    let rows = keep is_fee_tax operations in
    let attached = keep (λ o. not (is_fee_tax o) && not (eqb_ℤ o.fee_usd (pos 0))) operations in
    record {
      total_usd =
          sum_of (map (λ (o : XtbCashActivityEvidence). abs o.amount_usd *ℤ pos 1_000_000) rows)
          +ℤ sum_of (map (λ (o : XtbCashActivityEvidence). abs o.fee_usd) attached);
      count = length rows + length attached;
    }

unfoldable pub closed_position_pl_of : List XtbClosedPositionPlEvidence → XtbAmountRollup
closed_position_pl_of rows = record {
  total_usd = sum_of (map (λ (r : XtbClosedPositionPlEvidence). r.gross_pl_usd) rows);
  count = length rows;
}

abbrev pub source_authority_of : XtbStatementSourceKind → String
source_authority_of full_statement = "authoritative"
source_authority_of daily_pdf = "provisional"
source_authority_of gmail_daily_pdf = "provisional"

abbrev provisional_source : List XtbStatementIssue
provisional_source =
    record {
      code = "provisional_source_requires_full_statement";
      scope = "current_value";
      symbol = none;
    }
    ∷ []

unfoldable pub source_issues : XtbStatementSourceKind → Bool → List XtbStatementIssue
source_issues full_statement reconciled = []
source_issues daily_pdf reconciled = if reconciled then [] else provisional_source
source_issues gmail_daily_pdf reconciled = if reconciled then [] else provisional_source

unfoldable pub current_value_state :
    List XtbStatementIssue → List XtbStatementIssue → XtbBrokerCashSummary → XtbConfidenceScope
current_value_state (i ∷ more) positions cash = record { state = "provisional"; issues = i ∷ more }
current_value_state [] (i ∷ more) cash = record { state = "blocked"; issues = i ∷ more }
current_value_state [] [] cash =
    if not cash.is_trusted
    then record { state = "blocked"; issues = cash.issues }
    else record { state = "trusted"; issues = [] }

abbrev pub position_sum : List XtbCurrentPositionSummary → Decimal
position_sum [] = pos 0
position_sum (p ∷ ps) = p.current_value_usd +ℤ position_sum ps

abbrev existence_state : List XtbStatementIssue → String
existence_state [] = "trusted"
existence_state (i ∷ more) = "blocked"

unfoldable pub reconcile_xtb_current_value_statement :
    XtbStatementEvidence → Decimal → XtbCurrentValueStatementSummary
reconcile_xtb_current_value_statement statement tolerance =
    let positions = summarize_positions statement.current_positions in
    let found = position_issues statement.current_positions statement.current_positions_proved in
    let ledger =
      calculate_xtb_cash_ledger (cash_ledger_rows statement.cash_operations)
        statement.broker_cash_balance_usd tolerance in
    let cash_issues =
      map
        (λ (i : XtbCashLedgerIssue). record {
          code = i.code;
          scope = "broker_cash";
          symbol = i.asset_symbol;
        })
        ledger.issues in
    let sources =
      source_issues statement.source_kind statement.reconciled_against_authoritative_statement in
    let cash : XtbBrokerCashSummary = record {
      amount_usd = get_or statement.broker_cash_balance_usd ledger.cash_balance_usd;
      is_trusted = ledger.trusted;
      issues = cash_issues;
    } in
    let state = current_value_state sources found cash in
    record {
      source_authority = source_authority_of statement.source_kind;
      current_positions = positions;
      current_positions_value_usd = position_sum positions;
      broker_cash = cash;
      current_value_usd = position_sum positions +ℤ cash.amount_usd;
      current_value_trusted = state.state == "trusted";
      fees_taxes = fees_taxes_of statement.cash_operations;
      closed_position_pl = closed_position_pl_of statement.closed_position_pl_rows;
      current_value = state;
      broker_cash_confidence = record {
        state = if ledger.trusted then "trusted" else "blocked";
        issues = cash_issues;
      };
      position_existence = record { state = existence_state found; issues = found };
      issues = sources ++ found ++ cash_issues;
    }
