-- ===== src/CashLedger/Trust.antt =====
-- When the cash ledger is trusted.
use mathlib.Core.Path.{subst}
use mathlib.Core.Option.{some-injective}
use portfolio_tracker_public.Prelude.{
  ◌≡◌, refl, sym, String, List, [], ◌∷◌, ◌++◌, Option, none, some, true, false, string_eq, contains,
  arith, All, Bool-cases, inl, inr, ◌↔◌, ◌⊎◌,
}
use portfolio_tracker_public.Prelude.Decimal.{Decimal}
use portfolio_tracker_public.Prelude.Int.{abs, ◌-ℤ◌, ◌≤ℤ◌, ltb_ℤ}
use portfolio_tracker_public.CashLedger.Types.{
  XtbTransaction, XtbCashLedgerIssue, non_cash_types, known_xtb_types,
}
use portfolio_tracker_public.CashLedger.Rows.{
  is_clearly_not_xtb, normalized_tx_type, is_unreliable_profit_loss_sell, reliable_value_usd,
}
use portfolio_tracker_public.CashLedger.Ledger.{
  add_issue, unknown_type_issue, sell_proceeds_issue, Running, nothing_booked, add_value,
  add_transaction, add_transactions, control_issues, no_issues, calculate_xtb_cash_ledger,
}

-- A row that counts: its type is known, its sale proceeds are reliable and its amount is known.
pub record IsBooked (tx : XtbTransaction) : Type 0 where
  pub known : contains known_xtb_types (normalized_tx_type tx) ≡ true
  pub reliable : is_unreliable_profit_loss_sell tx (normalized_tx_type tx) ≡ false
  pub value : (v : Decimal) × (reliable_value_usd tx (normalized_tx_type tx) ≡ some v)

-- A row that the ledger accounts for: another institution's, one that moves no cash, or one that
-- counts.
abbrev pub IsUnderstood : XtbTransaction → Type 0
IsUnderstood tx =
    (is_clearly_not_xtb tx ≡ true)
    ⊎ (contains non_cash_types (normalized_tx_type tx) ≡ true)
    ⊎ IsBooked tx

no_issues-append :
    (is : List XtbCashLedgerIssue) (i : XtbCashLedgerIssue) → no_issues (is ++ i ∷ []) ≡ false
no_issues-append [] i = refl
no_issues-append (_ ∷ _) i = refl

add_value-no_issues :
    (r : Running) (tx : XtbTransaction) (t : String) (o : Option Decimal)
    → (no_issues (add_value r tx t o).issues ≡ true)
      ↔ ((no_issues r.issues ≡ true) × ((v : Decimal) × (o ≡ some v)))
unfolding add_value
add_value-no_issues r tx t none =
    (λ h. cc (h, no_issues-append r.issues _), λ (_, known). cc known.1)
add_value-no_issues r tx t (some v) = (λ h. (h, (v, refl)), λ h. h.0)

reported :
    (r : Running) (i : XtbCashLedgerIssue) (P : Type 0)
    → (P → ⊥)
    → (no_issues (r.issues ++ i ∷ []) ≡ true) ↔ ((no_issues r.issues ≡ true) × P)
reported r i P n = (λ h. cc (h, no_issues-append r.issues i), λ (_, p). elim (n p) [ ])

IsUnderstood-IsBooked :
    (tx : XtbTransaction)
    → is_clearly_not_xtb tx ≡ false
    → contains non_cash_types (normalized_tx_type tx) ≡ false
    → IsUnderstood tx
    → IsBooked tx
IsUnderstood-IsBooked tx a b (inl e) = cc (a, e)
IsUnderstood-IsBooked tx a b (inr (inl e)) = cc (b, e)
IsUnderstood-IsBooked tx a b (inr (inr h)) = h

abbrev IsAccounted : Running → XtbTransaction → Running → Type 0
IsAccounted r tx after =
    (no_issues after.issues ≡ true) ↔ ((no_issues r.issues ≡ true) × IsUnderstood tx)

add_transaction-IsAccounted :
    (r : Running) (tx : XtbTransaction) → IsAccounted r tx (add_transaction r tx)
unfolding add_transaction
add_transaction-IsAccounted r tx =
    let t = normalized_tx_type tx in
    let by = λ (after : Running) (e : add_transaction r tx ≡ after) (h : IsAccounted r tx after).
      subst (IsAccounted r tx) (sym e) h in
    elim (Bool-cases (is_clearly_not_xtb tx)) [
      | inl a ↦ by r (rw a refl) (λ h. (h, inl a), λ h. h.0)
      | inr a ↦ elim (Bool-cases (contains non_cash_types t)) [
        | inl b ↦ by r (rw (a, b) refl) (λ h. (h, inr (inl b)), λ h. h.0)
        | inr b ↦ elim (Bool-cases (contains known_xtb_types t)) [
          | inr c ↦
              by (add_issue (unknown_type_issue tx t) r) (rw (a, b, c) refl) (
                reported r _ (IsUnderstood tx)
                  (λ u. cc (c, (IsUnderstood-IsBooked tx a b u).known)))
          | inl c ↦ elim (Bool-cases (is_unreliable_profit_loss_sell tx t)) [
            | inl d ↦ by (add_issue (sell_proceeds_issue tx) r) (rw (a, b, c, d) refl) (
                reported r _ (IsUnderstood tx)
                  (λ u. cc (d, (IsUnderstood-IsBooked tx a b u).reliable)))
            | inr d ↦
                let valued = add_value-no_issues r tx t (reliable_value_usd tx t) in
                by (add_value r tx t (reliable_value_usd tx t)) (rw (a, b, c, d) refl) (
                  λ h.
                      let (none_before, known) = valued.0 h in
                      (none_before, inr (inr (record { known = c; reliable = d; value = known }))),
                  λ h. valued.1 (h.0, (IsUnderstood-IsBooked tx a b h.1).value),
                )
          ]
        ]
      ]
    ]

add_transactions-no_issues :
    (r : Running) (txs : List XtbTransaction)
    → (no_issues (add_transactions r txs).issues ≡ true)
      ↔ ((no_issues r.issues ≡ true) × All IsUnderstood txs)
unfolding add_transactions
add_transactions-no_issues r [] = (λ h. (h, tt), λ h. h.0)
add_transactions-no_issues r (tx ∷ txs) =
    let rest = add_transactions-no_issues (add_transaction r tx) txs in
    let one = add_transaction-IsAccounted r tx in
    (
      λ h. let (x, y) = one.0 (rest.0 h).0 in (x, (y, (rest.0 h).1)),
      λ (x, y). rest.1 (one.1 (x, y.0), y.1),
    )

abbrev IsControlled : Decimal → Decimal → Option Decimal → Type 0
IsControlled tolerance balance broker =
    (total : Decimal) × (broker ≡ some total) × (abs (balance -ℤ total) ≤ℤ tolerance)

control_issues-IsControlled :
    (tolerance balance : Decimal) (broker : Option Decimal)
    → (no_issues (control_issues tolerance balance broker) ≡ true)
      ↔ IsControlled tolerance balance broker
unfolding control_issues
control_issues-IsControlled tolerance balance none = (λ h. cc h, λ (total, e, _). cc e)
control_issues-IsControlled tolerance balance (some total) =
    elim (Bool-cases (ltb_ℤ tolerance (abs (balance -ℤ total)))) [
      | inl e ↦ rw e (λ h. cc h, λ (x, s, l). let same = some-injective total x s in ground arith)
      | inr e ↦ rw e (λ h. (total, refl, ground arith), λ h. refl)
    ]

-- The ledger is trusted exactly when every row is another institution's, moves no cash, or is of a
-- known type with a reliable amount, and the broker's balance is known and within the tolerance of
-- the ledger's.
pub calculate_xtb_cash_ledger_trusted :
    (txs : List XtbTransaction) (broker : Option Decimal) (tolerance : Decimal)
    → let ledger = calculate_xtb_cash_ledger txs broker tolerance in
      (ledger.trusted ≡ true) ↔ (
        All IsUnderstood txs
        × ((total : Decimal) × (broker ≡ some total)
            × (abs (ledger.cash_balance_usd -ℤ total) ≤ℤ tolerance)))
unfolding calculate_xtb_cash_ledger
calculate_xtb_cash_ledger_trusted txs broker tolerance =
    let r = add_transactions nothing_booked txs in
    let rows = add_transactions-no_issues nothing_booked txs in
    let total = control_issues-IsControlled tolerance r.cash_balance_usd broker in
    elim (Bool-cases (no_issues r.issues)) [
      | inl e ↦ rw e (λ h. ((rows.0 e).1, total.0 h), λ h. total.1 h.1)
      | inr e ↦ rw e (λ h. cc h, λ h. cc (rows.1 (refl, h.0)))
    ]
