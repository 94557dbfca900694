-- ===== src/CashLedger/Types.antt =====
-- The rows of the cash ledger and its result. A quantity is in units of 10^-10 and a price in units of
-- 10^-6, as the database keeps them (api/app/db/models.py), so that their product is a Decimal.
use portfolio_tracker_public.Prelude.{String, List, [], ◌∷◌, ◌++◌, Option, Bool}
use portfolio_tracker_public.Prelude.Int.{ℤ}
use portfolio_tracker_public.Prelude.Decimal.{Decimal}

-- What is read of `raw_data`, where that is a dict.
pub record RawData : Type 0 where
  pub description : Option String
  pub original_type : Option String

-- A missing attribute is `none`; `id` is also `none` where `int` does not accept it.
pub record XtbTransaction : Type 0 where
  pub id : Option ℤ
  pub institution : Option String
  pub tx_type : Option String
  pub asset_symbol : Option String
  pub symbol : Option String
  pub quantity : Option ℤ
  pub price_usd : Option ℤ
  pub total_usd : Option Decimal
  pub fee : Option Decimal
  pub fee_currency : Option String
  pub description : Option String
  pub raw_data : Option RawData

pub record XtbCashLedgerIssue : Type 0 where
  pub code : String
  pub message : String
  pub transaction_id : Option ℤ
  pub asset_symbol : Option String

pub record XtbCashLedger : Type 0 where
  pub cash_balance_usd : Decimal
  pub trusted : Bool
  pub issues : List XtbCashLedgerIssue

abbrev pub usd_cash_symbols : List String
usd_cash_symbols = "USD" ∷ "USDT" ∷ "USDC" ∷ []

abbrev pub deposit_types : List String
deposit_types = "deposit" ∷ "external_deposit" ∷ []

abbrev pub withdrawal_types : List String
withdrawal_types = "withdrawal" ∷ "external_withdrawal" ∷ []

abbrev pub buy_types : List String
buy_types = "buy" ∷ "open" ∷ "open_position" ∷ []

abbrev pub sell_types : List String
sell_types = "sell" ∷ "close" ∷ "close_position" ∷ []

abbrev pub dividend_types : List String
dividend_types = "dividend" ∷ []

abbrev pub charge_types : List String
charge_types = "fee" ∷ "commission" ∷ "stamp_duty" ∷ "swap" ∷ []

abbrev pub non_cash_types : List String
non_cash_types = "split" ∷ "correction" ∷ []

abbrev pub known_xtb_types : List String
known_xtb_types =
    deposit_types
    ++ (withdrawal_types ++ (buy_types ++ (sell_types ++ (dividend_types ++ charge_types))))
