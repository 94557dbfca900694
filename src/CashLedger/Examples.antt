-- ===== src/CashLedger/Examples.antt =====
-- Runs of the cash ledger, and its theorems at concrete rows.
use portfolio_tracker_public.Prelude.{
  ◌≡◌, refl, String, List, [], ◌∷◌, map, Option, none, some, true, false, string_eq, All, ◌↔◌,
}
use portfolio_tracker_public.Prelude.Text.{lower, upper, has_part, starts_with}
use portfolio_tracker_public.Prelude.Decimal.{Decimal, whole}
use portfolio_tracker_public.Prelude.Int.{ℤ, pos, abs, ◌+ℤ◌, ◌-ℤ◌, ◌*ℤ◌, ◌≤ℤ◌}
use portfolio_tracker_public.CashLedger.Types.{XtbTransaction, XtbCashLedger}
use portfolio_tracker_public.CashLedger.Rows.{
  is_clearly_not_xtb, normalized_tx_type, asset_symbol_of, description_of, raw_original_type,
  is_unreliable_profit_loss_sell, reliable_value_usd, usd_fee,
}
use portfolio_tracker_public.CashLedger.Ledger.{
  book, add_value, add_transaction, add_transactions, control_issues, calculate_xtb_cash_ledger,
}
use portfolio_tracker_public.CashLedger.Balance.{
  inflow, outflow, total_of, calculate_xtb_cash_ledger-balance,
}
use portfolio_tracker_public.CashLedger.Trust.{IsUnderstood, calculate_xtb_cash_ledger_trusted}

abbrev row : String → String → Option ℤ → Option ℤ → Option Decimal → XtbTransaction
row tx_type symbol quantity price total = record {
  id = none;
  institution = some "XTB";
  tx_type = some tx_type;
  asset_symbol = some symbol;
  symbol = none;
  quantity = quantity;
  price_usd = price;
  total_usd = total;
  fee = some (whole 1);
  fee_currency = some "usd";
  description = none;
  raw_data = none;
}

abbrev deposit : XtbTransaction
deposit = row "Deposit" "usd" (some (pos 10_000_000_000_000)) none none

-- Ten shares at 50.
abbrev purchase : XtbTransaction
purchase = row "buy" "VOO.US" (some (pos 100_000_000_000)) (some (pos 50_000_000)) none

abbrev unreliable_sale : XtbTransaction
unreliable_sale = row "close_position" "VOO.US" none none (some (whole 30))

abbrev rows : List XtbTransaction
rows = deposit ∷ purchase ∷ row "split" "VOO.US" none none none ∷ []

abbrev cent : Decimal
cent = pos 100_000_000_000_000

run : List XtbTransaction → XtbCashLedger
unfolding calculate_xtb_cash_ledger add_transactions add_transaction add_value book control_issues
    is_clearly_not_xtb normalized_tx_type asset_symbol_of description_of raw_original_type
    is_unreliable_profit_loss_sell reliable_value_usd usd_fee lower upper has_part starts_with
    string_eq ◌+ℤ◌ ◌-ℤ◌ ◌*ℤ◌
run txs = calculate_xtb_cash_ledger txs (some (whole 499)) cent

rows-run : ((run rows).cash_balance_usd ≡ whole 499) × ((run rows).trusted ≡ true)
unfolding run
rows-run = (refl, refl)

unreliable_sale-run :
    ((run (unreliable_sale ∷ rows)).cash_balance_usd ≡ whole 499)
    × ((run (unreliable_sale ∷ rows)).trusted ≡ false)
    × (map (λ i. i.code) (run (unreliable_sale ∷ rows)).issues ≡ "sell_proceeds_not_reliable" ∷ [])
unfolding run
unreliable_sale-run = (refl, refl, refl)

balance_example :
    (calculate_xtb_cash_ledger rows (some (whole 499)) cent).cash_balance_usd
    ≡ total_of inflow rows -ℤ total_of outflow rows
balance_example = calculate_xtb_cash_ledger-balance rows (some (whole 499)) cent

trusted_example :
    let ledger = calculate_xtb_cash_ledger rows (some (whole 499)) cent in
    (ledger.trusted ≡ true) ↔ (
      All IsUnderstood rows
      × ((total : Decimal) × (some (whole 499) ≡ some total)
          × (abs (ledger.cash_balance_usd -ℤ total) ≤ℤ cent)))
trusted_example = calculate_xtb_cash_ledger_trusted rows (some (whole 499)) cent
