-- ===== src/Performance/Totals.antt =====
-- What the loop over a period's cashflows adds up to.
use mathlib.Core.Path.{ap₂}
use text.Mathlib.TextEquality.{eq_iff}
use portfolio_tracker_public.Prelude.{
  ℕ, ◌≡◌, ◌≢◌, refl, ◌∙◌, sym, ap, String, List, [], ◌∷◌, Option, none, some, false, ◌||◌, ◌==◌,
  string_eq, if◌then◌else◌, arith, Bool-cases, inl, inr,
}
use portfolio_tracker_public.Prelude.Text.{lower}
use portfolio_tracker_public.Prelude.Decimal.{Decimal}
use portfolio_tracker_public.Prelude.Int.{ℤ, pos, abs, ◌+ℤ◌, zero-+ℤ, +ℤ-zero, +ℤ_assoc}
use portfolio_tracker_public.Performance.Types.{PeriodCashflow, PeriodCashflows}
use portfolio_tracker_public.Performance.Cashflows.{
  nothing_moved, add_confidence, add_moved, moved_amount, is_counted, add_period_cashflow,
  add_period_cashflows, period_cashflows,
}
use portfolio_tracker_public.Performance.Period.{Inputs, start_of, cashflows_of, calculate_period}

-- What a cashflow adds to a sum: the size of its amount, if it is of the kind and has one.
abbrev pub moved_share : String → PeriodCashflow → Decimal
moved_share kind c = elim (moved_amount c) [
  | none ↦ pos 0
  | some amount ↦ if lower c.cashflow_type == kind then abs amount else pos 0
]

-- The sum over the active cashflows after one time and up to another.
abbrev pub moved_total : String → ℤ → ℤ → List PeriodCashflow → Decimal
moved_total kind start_at end_at [] = pos 0
moved_total kind start_at end_at (c ∷ cs) =
    (if is_counted start_at end_at c then moved_share kind c else pos 0)
    +ℤ moved_total kind start_at end_at cs

kinds_differ : ◌≢◌ {A = String} "external_deposit" "external_withdrawal"
kinds_differ = ground (arith, eq_iff "external_deposit" "external_withdrawal")

add_confidence-keeps :
    (reference : Option Decimal) (c : PeriodCashflow) (p : PeriodCashflows)
    → ((add_confidence reference c p).deposits_usd ≡ p.deposits_usd)
      × ((add_confidence reference c p).withdrawals_usd ≡ p.withdrawals_usd)
unfolding add_confidence
add_confidence-keeps reference c p = ground arith

abbrev share_of : String → String → Option Decimal → Decimal
share_of kind t none = pos 0
share_of kind t (some amount) = if t == kind then abs amount else pos 0

add_moved-sums :
    (t : String) (o : Option Decimal) (p : PeriodCashflows)
    → ((add_moved t o p).deposits_usd ≡ p.deposits_usd +ℤ share_of "external_deposit" t o)
      × ((add_moved t o p).withdrawals_usd
          ≡ p.withdrawals_usd +ℤ share_of "external_withdrawal" t o)
unfolding add_moved
add_moved-sums t none p =
    elim (Bool-cases (t == "external_deposit" || t == "external_withdrawal")) [
      | inl e ↦ rw e (sym (+ℤ-zero _), sym (+ℤ-zero _))
      | inr e ↦ rw e (sym (+ℤ-zero _), sym (+ℤ-zero _))
    ]
add_moved-sums t (some amount) p = elim (Bool-cases (t == "external_deposit")) [
  | inl e ↦
      let other : (t == "external_withdrawal") ≡ false = ground (arith, kinds_differ) in
      rw (e, other) (refl, sym (+ℤ-zero _))
  | inr e ↦ elim (Bool-cases (t == "external_withdrawal")) [
    | inl f ↦ rw (e, f) (sym (+ℤ-zero _), refl)
    | inr f ↦ rw (e, f) (sym (+ℤ-zero _), sym (+ℤ-zero _))
  ]
]

abbrev Adds : PeriodCashflows → PeriodCashflows → Decimal → Decimal → Type 0
Adds before after deposits withdrawals =
    (after.deposits_usd ≡ before.deposits_usd +ℤ deposits)
    × (after.withdrawals_usd ≡ before.withdrawals_usd +ℤ withdrawals)

share_of_moved :
    (kind : String) (c : PeriodCashflow)
    → share_of kind (lower c.cashflow_type) (moved_amount c) ≡ moved_share kind c
share_of_moved kind c = ground arith

module _ (start_at end_at : ℤ) (reference : Option Decimal) where
  abbrev counted_share : String → PeriodCashflow → Decimal
  counted_share kind c = if is_counted start_at end_at c then moved_share kind c else pos 0

  add_period_cashflow-sums :
      (p : PeriodCashflows) (c : PeriodCashflow)
      → Adds p
          (add_period_cashflow start_at end_at reference p c)
          (counted_share "external_deposit" c)
          (counted_share "external_withdrawal" c)
  unfolding add_period_cashflow
  add_period_cashflow-sums p c = elim (Bool-cases (is_counted start_at end_at c)) [
    | inr e ↦ rw e (sym (+ℤ-zero _), sym (+ℤ-zero _))
    | inl e ↦
        let keeps = add_confidence-keeps reference c p in
        let sums =
          add_moved-sums (lower c.cashflow_type) (moved_amount c) (add_confidence reference c p) in
        rw e (
          sums.0 ∙ ap₂ ◌+ℤ◌ keeps.0 (share_of_moved "external_deposit" c),
          sums.1 ∙ ap₂ ◌+ℤ◌ keeps.1 (share_of_moved "external_withdrawal" c),
        )
  ]

  add_period_cashflows-sums :
      (p : PeriodCashflows) (cs : List PeriodCashflow)
      → Adds p
          (add_period_cashflows start_at end_at reference p cs)
          (moved_total "external_deposit" start_at end_at cs)
          (moved_total "external_withdrawal" start_at end_at cs)
  unfolding add_period_cashflows
  add_period_cashflows-sums p [] = (sym (+ℤ-zero _), sym (+ℤ-zero _))
  add_period_cashflows-sums p (c ∷ cs) =
      let one = add_period_cashflow-sums p c in
      let rest = add_period_cashflows-sums (add_period_cashflow start_at end_at reference p c) cs in
      (
        rest.0
            ∙ ap (λ d. d +ℤ moved_total "external_deposit" start_at end_at cs) one.0
            ∙ +ℤ_assoc _ _ _,
        rest.1
            ∙ ap (λ d. d +ℤ moved_total "external_withdrawal" start_at end_at cs) one.1
            ∙ +ℤ_assoc _ _ _,
      )

-- The deposits and withdrawals of a period are the sums of the sizes of the active cashflows of
-- their kind, with a known amount, after its start and up to its end.
pub calculate_period-cashflows :
    (inputs : Inputs) (as_of : ℤ) (days : ℕ)
    → let p = calculate_period inputs as_of days in
      (p.deposits_usd ≡ moved_total "external_deposit" p.start_at p.end_at inputs.cashflows)
      × (p.withdrawals_usd ≡ moved_total "external_withdrawal" p.start_at p.end_at inputs.cashflows)
unfolding calculate_period cashflows_of period_cashflows
calculate_period-cashflows inputs as_of days =
    let (d, w) =
      add_period_cashflows-sums (start_of inputs as_of days) as_of _ nothing_moved
        inputs.cashflows in
    (d ∙ zero-+ℤ _, w ∙ zero-+ℤ _)
