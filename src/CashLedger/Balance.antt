-- ===== src/CashLedger/Balance.antt =====
-- The balance of the cash ledger by what its rows bring in and take out.
use mathlib.Core.Path.{ap₂}
use mathlib.Core.Logic.{∥∥₁_elim}
use mathlib.Core.List.{Perm, Permᴰ}
use portfolio_tracker_public.Prelude.{
  ◌≡◌, refl, ◌∙◌, sym, ap, String, List, [], ◌∷◌, Option, none, some, Bool, true, false, not, ◌||◌,
  if◌then◌else◌, string_eq, contains, arith, All, In, In-All, Bool-cases, inl, inr, eq_of_==, ◌==◌,
}
use portfolio_tracker_public.Prelude.Decimal.{Decimal}
use portfolio_tracker_public.Prelude.Int.{zero-+ℤ, pos, ◌+ℤ◌, ◌-ℤ◌, int_laws}
use portfolio_tracker_public.CashLedger.Types.{
  XtbTransaction, deposit_types, withdrawal_types, buy_types, sell_types, dividend_types,
  charge_types, non_cash_types, known_xtb_types,
}
use portfolio_tracker_public.CashLedger.Rows.{
  is_clearly_not_xtb, normalized_tx_type, is_unreliable_profit_loss_sell, reliable_value_usd,
  usd_fee,
}
use portfolio_tracker_public.CashLedger.Ledger.{
  Running, nothing_booked, book, add_value, add_transaction, add_transactions,
  calculate_xtb_cash_ledger,
}

-- A row counts with its amount if it is of XTB and of a known type, and its amount is reliable.
abbrev pub booked_value : XtbTransaction → Option Decimal
booked_value tx =
    let tx_type = normalized_tx_type tx in
    if is_clearly_not_xtb tx
      || contains non_cash_types tx_type
      || not (contains known_xtb_types tx_type)
      || is_unreliable_profit_loss_sell tx tx_type
    then none
    else reliable_value_usd tx tx_type

abbrev pub brings_in : String → Bool
brings_in t = (contains deposit_types t || contains dividend_types t) || contains sell_types t

abbrev pub takes_out : String → Bool
takes_out t = (contains withdrawal_types t || contains charge_types t) || contains buy_types t

abbrev pub has_fee : String → Bool
has_fee t = contains buy_types t || contains sell_types t

-- Deposits, dividends and sales bring their amount in; withdrawals, charges and purchases take it
-- out; sales and purchases take their fee out.
abbrev pub inflow : XtbTransaction → Option Decimal → Decimal
inflow tx none = pos 0
inflow tx (some value) = if brings_in (normalized_tx_type tx) then value else pos 0

abbrev pub outflow : XtbTransaction → Option Decimal → Decimal
outflow tx none = pos 0
outflow tx (some value) =
    (if takes_out (normalized_tx_type tx) then value else pos 0)
    +ℤ (if has_fee (normalized_tx_type tx) then usd_fee tx else pos 0)

abbrev pub total_of : (XtbTransaction → Option Decimal → Decimal) → List XtbTransaction → Decimal
total_of flow [] = pos 0
total_of flow (tx ∷ txs) = flow tx (booked_value tx) +ℤ total_of flow txs

pub In-of_contains : (xs : List String) (s : String) → contains xs s ≡ true → In s xs
In-of_contains [] s h = cc
In-of_contains (x ∷ xs) s h = elim (Bool-cases (s == x)) [
  | inl e ↦ inl (sym (eq_of_== s x e))
  | inr e ↦ let later : contains xs s ≡ true = ground arith in inr (In-of_contains xs s later)
]

-- Exactly one of four.
abbrev one_of : Bool → Bool → Bool → Bool → Bool
one_of true a b c = not (a || b || c)
one_of false true b c = not (b || c)
one_of false false true c = not c
one_of false false false c = c

abbrev IsOneClass : String → Type 0
IsOneClass t =
    one_of (contains deposit_types t || contains dividend_types t)
      (contains withdrawal_types t || contains charge_types t) (contains buy_types t)
      (contains sell_types t)
    ≡ true

known_types-IsOneClass : All IsOneClass known_xtb_types
unfolding string_eq
known_types-IsOneClass = (
  refl,
  (
    refl,
    (
      refl,
      (
        refl,
        (refl, (refl, (refl, (refl, (refl, (refl, (refl, (refl, (refl, (refl, (refl, tt))))))))))),
      ),
    ),
  ),
)

book_by_class :
    (dv wc b s : Bool) (value fee balance : Decimal)
    → one_of dv wc b s ≡ true
    → (if dv
        then balance +ℤ value
        else if wc
        then balance -ℤ value
        else if b
        then balance -ℤ (value +ℤ fee)
        else if s
        then balance +ℤ (value -ℤ fee)
        else balance)
      ≡ balance
        +ℤ (if dv || s then value else pos 0)
        -ℤ ((if wc || b then value else pos 0) +ℤ (if b || s then fee else pos 0))
book_by_class true true b s value fee balance h = cc
book_by_class true false true s value fee balance h = cc
book_by_class true false false true value fee balance h = cc
book_by_class true false false false value fee balance h = omega int_laws
book_by_class false true true s value fee balance h = cc
book_by_class false true false true value fee balance h = cc
book_by_class false true false false value fee balance h = omega int_laws
book_by_class false false true true value fee balance h = cc
book_by_class false false true false value fee balance h = omega int_laws
book_by_class false false false true value fee balance h = omega int_laws
book_by_class false false false false value fee balance h = cc

add_value-balance :
    (r : Running) (tx : XtbTransaction) (o : Option Decimal)
    → contains known_xtb_types (normalized_tx_type tx) ≡ true
    → (add_value r tx (normalized_tx_type tx) o).cash_balance_usd
      ≡ r.cash_balance_usd +ℤ inflow tx o -ℤ outflow tx o
unfolding add_value book
add_value-balance r tx none k = omega int_laws
add_value-balance r tx (some value) k =
    book_by_class _ _ _ _ value (usd_fee tx) r.cash_balance_usd (
      In-All IsOneClass known_xtb_types known_types-IsOneClass
        (In-of_contains known_xtb_types (normalized_tx_type tx) k))

add_transaction-balance :
    (r : Running) (tx : XtbTransaction)
    → (add_transaction r tx).cash_balance_usd
      ≡ r.cash_balance_usd +ℤ inflow tx (booked_value tx) -ℤ outflow tx (booked_value tx)
unfolding add_transaction
add_transaction-balance r tx =
    let t = normalized_tx_type tx in
    elim (Bool-cases (is_clearly_not_xtb tx)) [
      | inl a ↦ rw a (omega int_laws)
      | inr a ↦ elim (Bool-cases (contains non_cash_types t)) [
        | inl b ↦ rw (a, b) (omega int_laws)
        | inr b ↦ elim (Bool-cases (contains known_xtb_types t)) [
          | inr c ↦ rw (a, b, c) (omega int_laws)
          | inl c ↦ elim (Bool-cases (is_unreliable_profit_loss_sell tx t)) [
            | inl d ↦ rw (a, b, c, d) (omega int_laws)
            | inr d ↦ rw (a, b, c, d) (add_value-balance r tx (reliable_value_usd tx t) c)
          ]
        ]
      ]
    ]

add_transactions-balance :
    (r : Running) (txs : List XtbTransaction)
    → (add_transactions r txs).cash_balance_usd
      ≡ r.cash_balance_usd +ℤ (total_of inflow txs -ℤ total_of outflow txs)
unfolding add_transactions
add_transactions-balance r [] = omega int_laws
add_transactions-balance r (tx ∷ txs) =
    add_transactions-balance (add_transaction r tx) txs
    ∙ ap (λ b. b +ℤ (total_of inflow txs -ℤ total_of outflow txs)) (add_transaction-balance r tx)
    ∙ omega int_laws

-- The balance is what the booked rows bring in, less what they take out, their fees in dollars
-- included, whatever the broker's balance is. A row that is skipped or reported counts nothing.
pub calculate_xtb_cash_ledger-balance :
    (txs : List XtbTransaction) (broker : Option Decimal) (tolerance : Decimal)
    → (calculate_xtb_cash_ledger txs broker tolerance).cash_balance_usd
      ≡ total_of inflow txs -ℤ total_of outflow txs
unfolding calculate_xtb_cash_ledger
calculate_xtb_cash_ledger-balance txs broker tolerance =
    add_transactions-balance nothing_booked txs ∙ zero-+ℤ _

total_of-Permᴰ :
    (flow : XtbTransaction → Option Decimal → Decimal) {txs ds : List XtbTransaction}
    → Permᴰ txs ds
    → total_of flow txs ≡ total_of flow ds
total_of-Permᴰ flow Permᴰ.nil = refl
total_of-Permᴰ flow (Permᴰ.cons e p) = rw e (ap (◌+ℤ◌ _) (total_of-Permᴰ flow p))
total_of-Permᴰ flow (Permᴰ.swap e f) = rw (e, f) (omega int_laws)
total_of-Permᴰ flow (Permᴰ.trans p q) = total_of-Permᴰ flow p ∙ total_of-Permᴰ flow q

-- The order of the rows does not change the balance.
pub calculate_xtb_cash_ledger-balance-perm :
    (txs ds : List XtbTransaction) (broker : Option Decimal) (tolerance : Decimal)
    → Perm txs ds
    → (calculate_xtb_cash_ledger txs broker tolerance).cash_balance_usd
      ≡ (calculate_xtb_cash_ledger ds broker tolerance).cash_balance_usd
calculate_xtb_cash_ledger-balance-perm txs ds broker tolerance p = ∥∥₁_elim p (hlevel) λ q.
    calculate_xtb_cash_ledger-balance txs broker tolerance
    ∙ ap₂ ◌-ℤ◌ (total_of-Permᴰ inflow q) (total_of-Permᴰ outflow q)
    ∙ sym (calculate_xtb_cash_ledger-balance ds broker tolerance)
