-- ===== src/Capital/Totals.antt =====
-- What the loop over the cashflows adds up to.
use mathlib.Core.Path.{ap₂}
use mathlib.Core.Logic.{∥∥₁_elim}
use mathlib.Core.List.{Perm, Permᴰ}
use text.Mathlib.TextEquality.{eq_iff}
use portfolio_tracker_public.Prelude.{
  ◌≡◌, refl, ◌∙◌, sym, ap, String, List, [], ◌∷◌, Option, none, some, if◌then◌else◌, ◌==◌,
  string_eq, keep, arith, Bool-cases, inl, inr, ◌≢◌,
}
use portfolio_tracker_public.Prelude.Text.{lower}
use portfolio_tracker_public.Prelude.Decimal.{Decimal}
use portfolio_tracker_public.Prelude.Int.{pos, abs, ◌+ℤ◌, ◌-ℤ◌, int_laws, zero-+ℤ, +ℤ-zero}
use portfolio_tracker_public.Capital.Types.{CapitalCashflow, CapitalInputs}
use portfolio_tracker_public.Capital.Summary.{
  Totals, no_totals, cashflow_amount, add_amount, add_cashflow, add_cashflows, is_active, totals,
  calculate_capital_truth,
}

-- What one cashflow adds to the total of a kind: the size of its amount, if it is of that kind and
-- has one.
abbrev pub share : String → CapitalCashflow → Decimal
share kind c = elim (cashflow_amount c) [
  | none ↦ pos 0
  | some amount ↦ if lower c.cashflow_type == kind then abs amount else pos 0
]

-- The sum over the active cashflows of a kind.
abbrev pub external_total : String → List CapitalCashflow → Decimal
external_total kind [] = pos 0
external_total kind (c ∷ cs) =
    (if is_active c then share kind c else pos 0) +ℤ external_total kind cs

kinds_differ : ◌≢◌ {A = String} "external_deposit" "external_withdrawal"
kinds_differ = ground (arith, eq_iff "external_deposit" "external_withdrawal")

module _ (raw : Option Decimal) where
  add_cashflow-deposits :
      (t : Totals) (c : CapitalCashflow)
      → (add_cashflow raw t c).gross_deposits ≡ t.gross_deposits +ℤ share "external_deposit" c
  unfolding add_cashflow add_amount
  add_cashflow-deposits t c = ground (arith, +ℤ-zero t.gross_deposits)

  add_cashflow-withdrawals :
      (t : Totals) (c : CapitalCashflow)
      → (add_cashflow raw t c).gross_withdrawals
        ≡ t.gross_withdrawals +ℤ share "external_withdrawal" c
  unfolding add_cashflow add_amount
  add_cashflow-withdrawals t c = ground (arith, +ℤ-zero t.gross_withdrawals, kinds_differ)

  add_cashflows-deposits :
      (t : Totals) (cs : List CapitalCashflow)
      → (add_cashflows raw t (keep is_active cs)).gross_deposits
        ≡ t.gross_deposits +ℤ external_total "external_deposit" cs
  unfolding add_cashflows
  add_cashflows-deposits t [] = sym (+ℤ-zero _)
  add_cashflows-deposits t (c ∷ cs) = elim (Bool-cases (is_active c)) [
    | inl active ↦ rw active (
        grind
          (int_laws, add_cashflows-deposits (add_cashflow raw t c) cs, add_cashflow-deposits t c))
    | inr inactive ↦ rw inactive (grind (int_laws, add_cashflows-deposits t cs))
  ]

  add_cashflows-withdrawals :
      (t : Totals) (cs : List CapitalCashflow)
      → (add_cashflows raw t (keep is_active cs)).gross_withdrawals
        ≡ t.gross_withdrawals +ℤ external_total "external_withdrawal" cs
  unfolding add_cashflows
  add_cashflows-withdrawals t [] = sym (+ℤ-zero _)
  add_cashflows-withdrawals t (c ∷ cs) = elim (Bool-cases (is_active c)) [
    | inl active ↦ rw active (
        grind (
          int_laws,
          add_cashflows-withdrawals (add_cashflow raw t c) cs,
          add_cashflow-withdrawals t c,
        ))
    | inr inactive ↦ rw inactive (grind (int_laws, add_cashflows-withdrawals t cs))
  ]

-- The summary's gross deposits and withdrawals are the sums of the sizes of the active external
-- cashflows with a known amount, whatever the other inputs; net capital is their difference.
pub calculate_capital_truth-totals :
    (inputs : CapitalInputs)
    → let summary = calculate_capital_truth inputs in
      let deposits = external_total "external_deposit" inputs.cashflows in
      let withdrawals = external_total "external_withdrawal" inputs.cashflows in
      (summary.gross_deposits_usd ≡ deposits)
      × (summary.gross_withdrawals_usd ≡ withdrawals)
      × (summary.net_capital_at_work_usd ≡ deposits -ℤ withdrawals)
unfolding calculate_capital_truth totals
calculate_capital_truth-totals inputs =
    let raw = inputs.current_value.value_usd in
    let d = add_cashflows-deposits raw no_totals inputs.cashflows ∙ zero-+ℤ _ in
    let w = add_cashflows-withdrawals raw no_totals inputs.cashflows ∙ zero-+ℤ _ in
    (d, w, ap₂ ◌-ℤ◌ d w)

external_total-Permᴰ :
    (kind : String) {cs ds : List CapitalCashflow}
    → Permᴰ cs ds
    → external_total kind cs ≡ external_total kind ds
external_total-Permᴰ kind Permᴰ.nil = refl
external_total-Permᴰ kind (Permᴰ.cons e p) =
    ap₂ ◌+ℤ◌ (ap (λ c. if is_active c then share kind c else pos 0) e) (external_total-Permᴰ kind p)
external_total-Permᴰ kind (Permᴰ.swap {l = l} e f) = rw (e, f) (omega int_laws)
external_total-Permᴰ kind (Permᴰ.trans p q) =
    external_total-Permᴰ kind p ∙ external_total-Permᴰ kind q

-- The order in which the cashflows are listed changes none of the three totals.
pub calculate_capital_truth-totals-perm :
    (inputs : CapitalInputs) (ds : List CapitalCashflow)
    → Perm inputs.cashflows ds
    → let summary = calculate_capital_truth inputs in
      let other = calculate_capital_truth (record inputs { cashflows = ds }) in
      (summary.gross_deposits_usd ≡ other.gross_deposits_usd)
      × (summary.gross_withdrawals_usd ≡ other.gross_withdrawals_usd)
      × (summary.net_capital_at_work_usd ≡ other.net_capital_at_work_usd)
calculate_capital_truth-totals-perm inputs ds p = ∥∥₁_elim p (hlevel) λ q.
    let (d, w, n) = calculate_capital_truth-totals inputs in
    let (d', w', n') = calculate_capital_truth-totals (record inputs { cashflows = ds }) in
    let same = external_total-Permᴰ "external_deposit" q in
    let same' = external_total-Permᴰ "external_withdrawal" q in
    (d ∙ same ∙ sym d', w ∙ same' ∙ sym w', n ∙ ap₂ ◌-ℤ◌ same same' ∙ sym n')
