-- ===== src/Statement/Examples.antt =====
-- A run: a full statement with one share, a deposit and its purchase.
use portfolio_tracker_public.Prelude.{
  ◌≡◌, ◌↔◌, refl, String, [], ◌∷◌, none, some, true, false, string_eq, All,
}
use portfolio_tracker_public.Prelude.Text.{lower, upper, has_part, starts_with}
use portfolio_tracker_public.Prelude.Int.{ℤ, pos, abs, neg, ◌+ℤ◌, ◌-ℤ◌, ◌*ℤ◌, ◌≤ℤ◌}
use portfolio_tracker_public.Prelude.Decimal.{Decimal, whole}
use portfolio_tracker_public.CashLedger.Rows.{
  is_clearly_not_xtb, normalized_tx_type, asset_symbol_of, description_of, raw_original_type,
  is_unreliable_profit_loss_sell, reliable_value_usd, usd_fee,
}
use portfolio_tracker_public.CashLedger.Ledger.{
  calculate_xtb_cash_ledger, add_transactions, add_transaction, add_value, book, control_issues,
}
use portfolio_tracker_public.CashLedger.Trust.{IsUnderstood}
use portfolio_tracker_public.Statement.Types.{
  XtbCashActivityEvidence, full_statement, XtbStatementEvidence,
}
use portfolio_tracker_public.Statement.Reconcile.{
  cash_ledger_row, cash_ledger_rows, summarize_by, summarize_positions, value_issue, evidence_issue,
  position_issues, source_issues, current_value_state, reconcile_xtb_current_value_statement,
}
use portfolio_tracker_public.Statement.Trusted.{
  is_proved, ledger_of, positions_worth, current_value_trusted_iff, trusted_current_value_eq,
}

abbrev cents : ℤ
cents = pos 100_000_000_000_000

abbrev operation : String → ℤ → XtbCashActivityEvidence
operation tx_type amount = record {
  tx_type = tx_type;
  amount_usd = amount;
  symbol = "USD";
  description = "";
  fee_usd = pos 0;
}

abbrev statement : XtbStatementEvidence
statement = record {
  source_kind = full_statement;
  current_positions =
      record {
        symbol = "VOO.US";
        quantity = pos 20_000_000_000;
        market_price_usd = some (pos 300_000_000);
        current_value_usd = none;
      }
      ∷ [];
  current_positions_proved = false;
  cash_operations =
      operation "deposit" (pos 10_000_000_000_000)
      ∷ operation "Tax" (neg (pos 10_000_000_000))
      ∷ [];
  closed_position_pl_rows = [];
  broker_cash_balance_usd = some (whole 999);
  reconciled_against_authoritative_statement = false;
}

statement-run :
    ((reconcile_xtb_current_value_statement statement cents).current_value_trusted ≡ true)
    × ((reconcile_xtb_current_value_statement statement cents).current_value_usd ≡ whole 1_599)
unfolding reconcile_xtb_current_value_statement cash_ledger_row summarize_by summarize_positions
    value_issue evidence_issue position_issues source_issues current_value_state
    calculate_xtb_cash_ledger add_transactions add_transaction add_value book control_issues
    is_clearly_not_xtb normalized_tx_type asset_symbol_of description_of raw_original_type
    is_unreliable_profit_loss_sell reliable_value_usd usd_fee lower upper has_part starts_with
    string_eq ◌+ℤ◌ ◌-ℤ◌ ◌*ℤ◌
statement-run = (refl, refl)

current_value_trusted_iff_example :
    ((reconcile_xtb_current_value_statement statement cents).current_value_trusted ≡ true) ↔ (
      (is_proved statement ≡ true)
      × All IsUnderstood (cash_ledger_rows statement.cash_operations)
      × ((total : Decimal) × (statement.broker_cash_balance_usd ≡ some total)
          × (abs ((ledger_of statement cents).cash_balance_usd -ℤ total) ≤ℤ cents)))
current_value_trusted_iff_example = current_value_trusted_iff statement cents

trusted_current_value_eq_example :
    (total : Decimal) × (statement.broker_cash_balance_usd ≡ some total)
    × ((reconcile_xtb_current_value_statement statement cents).current_value_usd
        ≡ positions_worth statement.current_positions +ℤ total)
trusted_current_value_eq_example = trusted_current_value_eq statement cents statement-run.0
