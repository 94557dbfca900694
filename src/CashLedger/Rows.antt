-- ===== src/CashLedger/Rows.antt =====
-- What the ledger reads of one row: its type, its amount, its fee, and whether they are reliable.
use portfolio_tracker_public.Prelude.{
  String, ◌++◌, Option, none, some, Bool, false, not, ◌||◌, if◌then◌else◌, ◌==◌, string_eq,
  contains, get_or,
}
use portfolio_tracker_public.Prelude.Text.{lower, upper, has_part, starts_with}
use portfolio_tracker_public.Prelude.Decimal.{Decimal}
use portfolio_tracker_public.Prelude.Int.{ℤ, pos, abs, ◌*ℤ◌}
use portfolio_tracker_public.CashLedger.Types.{
  RawData, XtbTransaction, usd_cash_symbols, buy_types, sell_types,
}

unfoldable pub is_clearly_not_xtb : XtbTransaction → Bool
is_clearly_not_xtb tx = elim tx.institution [
  | none ↦ false
  | some institution ↦ not (lower institution == "xtb")
]

-- `_normalized_tx_type`
unfoldable pub normalized_tx_type : XtbTransaction → String
normalized_tx_type tx = lower (get_or tx.tx_type "")

abbrev upper_option : Option String → Option String
upper_option none = none
upper_option (some s) = some (upper s)

-- `_asset_symbol`
unfoldable pub asset_symbol_of : XtbTransaction → Option String
asset_symbol_of tx = elim tx.asset_symbol [
  | some symbol ↦ some (upper symbol)
  | none ↦ upper_option tx.symbol
]

abbrev raw_description : Option RawData → String
raw_description none = ""
raw_description (some raw) = get_or raw.description ""

-- `_description`
unfoldable pub description_of : XtbTransaction → String
description_of tx = elim tx.description [
  | some description ↦ lower description
  | none ↦ lower (raw_description tx.raw_data)
]

-- `_raw_original_type`
unfoldable pub raw_original_type : XtbTransaction → String
raw_original_type tx = elim tx.raw_data [
  | none ↦ ""
  | some raw ↦ lower (get_or raw.original_type "")
]

abbrev is_usd : Option String → Bool
is_usd none = false
is_usd (some symbol) = contains usd_cash_symbols symbol

unfoldable pub is_unreliable_profit_loss_sell : XtbTransaction → String → Bool
is_unreliable_profit_loss_sell tx tx_type =
    if not (contains sell_types tx_type) || is_usd (asset_symbol_of tx)
    then false
    else if has_part "@" (description_of tx)
    then false
    else tx_type == "close_position"
      || raw_original_type tx == "close_position"
      || raw_original_type tx == "close"
      || starts_with (description_of tx) "close "

-- `_reliable_value_usd` after the total, by the quantity and the price.
abbrev value_of_quantity : XtbTransaction → String → Option ℤ → Option ℤ → Option Decimal
value_of_quantity tx tx_type none price = none
value_of_quantity tx tx_type (some quantity) none =
    if is_usd (asset_symbol_of tx) then some (abs (quantity *ℤ pos 1_000_000)) else none
value_of_quantity tx tx_type (some quantity) (some price) =
    if contains (buy_types ++ sell_types) tx_type
    then some (abs (quantity *ℤ price))
    else if is_usd (asset_symbol_of tx)
    then some (abs (quantity *ℤ pos 1_000_000))
    else none

unfoldable pub reliable_value_usd : XtbTransaction → String → Option Decimal
reliable_value_usd tx tx_type = elim tx.total_usd [
  | some total ↦ some (abs total)
  | none ↦ value_of_quantity tx tx_type tx.quantity tx.price_usd
]

unfoldable pub usd_fee : XtbTransaction → Decimal
usd_fee tx = elim tx.fee [
  | none ↦ pos 0
  | some fee ↦
      if contains usd_cash_symbols (upper (get_or tx.fee_currency "")) then abs fee else pos 0
]
