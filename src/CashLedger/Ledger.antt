-- ===== src/CashLedger/Ledger.antt =====
-- `calculate_xtb_cash_ledger`: the loop over the rows, and the comparison with the broker's balance.
use portfolio_tracker_public.Prelude.{
  String, ◌<>◌, List, [], ◌∷◌, ◌++◌, Option, none, some, Bool, true, false, not, ◌||◌,
  if◌then◌else◌, string_eq, contains,
}
use portfolio_tracker_public.Prelude.Text.{is_truthy}
use portfolio_tracker_public.Prelude.Decimal.{Decimal}
use portfolio_tracker_public.Prelude.Int.{pos, abs, ◌+ℤ◌, ◌-ℤ◌, ltb_ℤ}
use portfolio_tracker_public.CashLedger.Types.{
  XtbTransaction, XtbCashLedgerIssue, XtbCashLedger, deposit_types, withdrawal_types, buy_types,
  sell_types, dividend_types, charge_types, non_cash_types, known_xtb_types,
}
use portfolio_tracker_public.CashLedger.Rows.{
  is_clearly_not_xtb, normalized_tx_type, asset_symbol_of, is_unreliable_profit_loss_sell,
  reliable_value_usd, usd_fee,
}

-- The variables of the loop.
pub record Running : Type 0 where
  pub cash_balance_usd : Decimal
  pub issues : List XtbCashLedgerIssue

abbrev pub nothing_booked : Running
nothing_booked = record { cash_balance_usd = pos 0; issues = [] }

abbrev pub row_issue : String → String → XtbTransaction → XtbCashLedgerIssue
row_issue code message tx = record {
  code = code;
  message = message;
  transaction_id = tx.id;
  asset_symbol = asset_symbol_of tx;
}

abbrev pub add_issue : XtbCashLedgerIssue → Running → Running
add_issue issue r = record r { issues = r.issues ++ issue ∷ [] }

abbrev pub unknown_type_issue : XtbTransaction → String → XtbCashLedgerIssue
unknown_type_issue tx tx_type =
    row_issue "unknown_xtb_transaction_type"
      ("Unknown XTB transaction type: " <> (if is_truthy tx_type then tx_type else "missing")) tx

abbrev pub sell_proceeds_issue : XtbTransaction → XtbCashLedgerIssue
sell_proceeds_issue tx =
    row_issue "sell_proceeds_not_reliable"
      "XTB closed-position P/L row cannot be used as cash sale proceeds." tx

-- The chain of tests on the type at the end of the loop's body.
unfoldable pub book : String → Decimal → Decimal → Decimal → Decimal
book tx_type value_usd fee_usd balance =
    if contains deposit_types tx_type || contains dividend_types tx_type
    then balance +ℤ value_usd
    else if contains withdrawal_types tx_type || contains charge_types tx_type
    then balance -ℤ value_usd
    else if contains buy_types tx_type
    then balance -ℤ (value_usd +ℤ fee_usd)
    else if contains sell_types tx_type
    then balance +ℤ (value_usd -ℤ fee_usd)
    else balance

-- The loop's body from the amount on.
unfoldable pub add_value : Running → XtbTransaction → String → Option Decimal → Running
add_value r tx tx_type none =
    add_issue
      (row_issue "missing_usd_amount" "Missing reliable USD amount for XTB cash ledger row." tx) r
add_value r tx tx_type (some value_usd) = record r {
  cash_balance_usd = book tx_type value_usd (usd_fee tx) r.cash_balance_usd;
}

unfoldable pub add_transaction : Running → XtbTransaction → Running
add_transaction r tx =
    let tx_type = normalized_tx_type tx in
    if is_clearly_not_xtb tx
    then r
    else if contains non_cash_types tx_type
    then r
    else if not (contains known_xtb_types tx_type)
    then add_issue (unknown_type_issue tx tx_type) r
    else if is_unreliable_profit_loss_sell tx tx_type
    then add_issue (sell_proceeds_issue tx) r
    else add_value r tx tx_type (reliable_value_usd tx tx_type)

unfoldable pub add_transactions : Running → List XtbTransaction → Running
add_transactions r [] = r
add_transactions r (tx ∷ txs) = add_transactions (add_transaction r tx) txs

abbrev ledger_issue : String → String → List XtbCashLedgerIssue
ledger_issue code message =
    record { code = code; message = message; transaction_id = none; asset_symbol = none } ∷ []

-- The issue of the broker's balance: it is missing, or further from the ledger's than the tolerance.
unfoldable pub control_issues : Decimal → Decimal → Option Decimal → List XtbCashLedgerIssue
control_issues tolerance balance none =
    ledger_issue "missing_cash_control_total"
      "XTB cash ledger requires an authoritative broker cash control total before it can be trusted."
control_issues tolerance balance (some expected_cash) =
    if ltb_ℤ tolerance (abs (balance -ℤ expected_cash))
    then ledger_issue "cash_control_total_mismatch"
        "Calculated XTB cash ledger does not match broker cash control total."
    else []

abbrev pub no_issues : List XtbCashLedgerIssue → Bool
no_issues [] = true
no_issues (_ ∷ _) = false

unfoldable pub calculate_xtb_cash_ledger :
    List XtbTransaction → Option Decimal → Decimal → XtbCashLedger
calculate_xtb_cash_ledger transactions broker_cash_balance_usd cash_statement_tolerance =
    let r = add_transactions nothing_booked transactions in
    let issues =
      if no_issues r.issues
      then control_issues cash_statement_tolerance r.cash_balance_usd broker_cash_balance_usd
      else r.issues in
    record { cash_balance_usd = r.cash_balance_usd; trusted = no_issues issues; issues = issues }
