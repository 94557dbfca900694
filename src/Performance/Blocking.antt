-- ===== src/Performance/Blocking.antt =====
-- What hides the gain of a period.
use portfolio_tracker_public.Prelude.{
  get_or, ◌<>◌, ℕ, ◌≤◌, ◌≡◌, ◌⊎◌, refl, String, List, [], ◌∷◌, ◌++◌, map, Option, none, some, true,
  false, ◌||◌, ◌==◌, string_eq, arith, Bool-cases, inl, inr, Any, In, In-All, Any-append_left,
  Any-append_right,
}
use portfolio_tracker_public.Prelude.Text.{lower}
use portfolio_tracker_public.Prelude.Int.{ℤ}
use portfolio_tracker_public.Prelude.Decimal.{Decimal}
use portfolio_tracker_public.Confidence.{
  label, Confidence, blocked, rank, max_confidence, max_confidence_bounds,
}
use portfolio_tracker_public.Capital.Impacts.{is_trusted}
use portfolio_tracker_public.Performance.Types.{PeriodCashflow, PeriodCashflows, PeriodIssue}
use portfolio_tracker_public.Performance.Cashflows.{
  append_reason, coerce_confidence_state, cashflow_confidence_state, nothing_moved, add_confidence,
  add_moved, moved_amount, is_counted, add_period_cashflow, add_period_cashflows, period_cashflows,
  is_in_scope, period_issue_impacts,
}
use portfolio_tracker_public.Performance.Period.{
  Inputs, start_of, cashflows_of, issues_of, states_of, investment_gain, calculate_period,
}

max_confidence-blocked :
    (states : List Confidence) → In blocked states → max_confidence states ≡ blocked
max_confidence-blocked states i =
    let top : 4 ≤ rank (max_confidence states) =
      In-All (λ s. rank s ≤ rank (max_confidence states)) states (max_confidence_bounds states) i in
    at_top (max_confidence states) top
  where
    at_top : (s : Confidence) → 4 ≤ rank s → s ≡ blocked
    at_top s h = ground arith

-- A cashflow of a period that is an external one without an amount.
pub record IsAmountMissing (start_at end_at : ℤ) (c : PeriodCashflow) : Type 0 where
  pub counted : is_counted start_at end_at c ≡ true
  pub external :
      (lower c.cashflow_type == "external_deposit"
        || lower c.cashflow_type == "external_withdrawal")
      ≡ true
  pub no_amount : moved_amount c ≡ none

abbrev HasBlocked : PeriodCashflows → Type 0
HasBlocked p = In blocked p.confidence_states

append_reason-keeps :
    (state : Confidence) (reason : String) (p : PeriodCashflows)
    → HasBlocked p
    → HasBlocked (append_reason state reason p)
append_reason-keeps state reason p h =
    Any-append_left (λ s. s ≡ blocked) p.confidence_states (state ∷ []) h

add_confidence-HasBlocked :
    (reference : Option Decimal) (c : PeriodCashflow) (p : PeriodCashflows)
    → HasBlocked p
    → HasBlocked (add_confidence reference c p)
unfolding add_confidence
add_confidence-HasBlocked reference c p h =
    let raw = coerce_confidence_state c.confidence_state in
    let state = cashflow_confidence_state c raw reference in
    elim (Bool-cases (is_trusted state)) [
      | inl e ↦ rw e h
      | inr e ↦ rw e (
          append_reason-keeps state (get_or c.reason_code ("cashflow_confidence_" <> label raw)) p
            h)
    ]

add_moved-HasBlocked :
    (kind : String) (o : Option Decimal) (p : PeriodCashflows)
    → HasBlocked p
    → HasBlocked (add_moved kind o p)
unfolding add_moved
add_moved-HasBlocked kind none p h =
    elim (Bool-cases (kind == "external_deposit" || kind == "external_withdrawal")) [
      | inl e ↦ rw e (append_reason-keeps blocked "missing_cashflow_amount" p h)
      | inr e ↦ rw e h
    ]
add_moved-HasBlocked kind (some a) p h = elim (Bool-cases (kind == "external_deposit")) [
  | inl e ↦ rw e h
  | inr e ↦ elim (Bool-cases (kind == "external_withdrawal")) [
    | inl f ↦ rw (e, f) h
    | inr f ↦ rw (e, f) h
  ]
]

module _ (start_at end_at : ℤ) (reference : Option Decimal) where
  add_period_cashflow-HasBlocked :
      (p : PeriodCashflows) (c : PeriodCashflow)
      → HasBlocked p
      → HasBlocked (add_period_cashflow start_at end_at reference p c)
  unfolding add_period_cashflow
  add_period_cashflow-HasBlocked p c h = elim (Bool-cases (is_counted start_at end_at c)) [
    | inl e ↦ rw e (
        add_moved-HasBlocked (lower c.cashflow_type) (moved_amount c) (add_confidence reference c p)
          (add_confidence-HasBlocked reference c p h))
    | inr e ↦ rw e h
  ]

  add_period_cashflows-HasBlocked :
      (p : PeriodCashflows) (cs : List PeriodCashflow)
      → HasBlocked p
      → HasBlocked (add_period_cashflows start_at end_at reference p cs)
  unfolding add_period_cashflows
  add_period_cashflows-HasBlocked p [] h = h
  add_period_cashflows-HasBlocked p (c ∷ cs) h =
      add_period_cashflows-HasBlocked (add_period_cashflow start_at end_at reference p c) cs
        (add_period_cashflow-HasBlocked p c h)

  missing_amount-HasBlocked :
      (p : PeriodCashflows) (cs : List PeriodCashflow)
      → Any (IsAmountMissing start_at end_at) cs
      → HasBlocked (add_period_cashflows start_at end_at reference p cs)
  unfolding add_period_cashflows add_period_cashflow add_moved
  missing_amount-HasBlocked p [] i = elim i [ ]
  missing_amount-HasBlocked p (c ∷ cs) (inr i) =
      missing_amount-HasBlocked (add_period_cashflow start_at end_at reference p c) cs i
  missing_amount-HasBlocked p (c ∷ cs) (inl m) =
      add_period_cashflows-HasBlocked (add_period_cashflow start_at end_at reference p c) cs (
        rw (m.counted, m.no_amount, m.external)
          (Any-append_right (λ s. s ≡ blocked) (add_confidence reference c p).confidence_states
            (blocked ∷ []) (inl refl)))

issue_impacts-blocked :
    (start_at end_at : ℤ) (issues : List PeriodIssue)
    → Any (λ i. is_in_scope start_at end_at i ≡ true) issues
    → In blocked (map (λ i. i.confidence_state) (period_issue_impacts start_at end_at issues))
unfolding period_issue_impacts
issue_impacts-blocked start_at end_at [] i = elim i [ ]
issue_impacts-blocked start_at end_at (x ∷ xs) (inl e) = rw e (inl refl)
issue_impacts-blocked start_at end_at (x ∷ xs) (inr i) =
    elim (Bool-cases (is_in_scope start_at end_at x)) [
      | inl e ↦ rw e (inr (issue_impacts-blocked start_at end_at xs i))
      | inr e ↦ rw e (issue_impacts-blocked start_at end_at xs i)
    ]

no_gain :
    (s e : Option Decimal) (d w : Decimal) (state : Confidence)
    → state ≡ blocked
    → investment_gain s e d w state ≡ none
unfolding investment_gain
no_gain none e d w state h = refl
no_gain (some x) none d w state h = refl
no_gain (some x) (some y) d w state h = rw h refl

states_blocked :
    (inputs : Inputs) (as_of : ℤ) (days : ℕ)
    → Any (IsAmountMissing (start_of inputs as_of days) as_of) inputs.cashflows
      ⊎ Any (λ i. is_in_scope (start_of inputs as_of days) as_of i ≡ true) inputs.issues
    → In blocked (
        (cashflows_of inputs as_of days).confidence_states
        ++ map (λ i. i.confidence_state) (issues_of inputs as_of days))
unfolding cashflows_of period_cashflows issues_of
states_blocked inputs as_of days (inl m) =
    Any-append_left (λ s. s ≡ blocked) (cashflows_of inputs as_of days).confidence_states _
      (missing_amount-HasBlocked _ as_of _ nothing_moved inputs.cashflows m)
states_blocked inputs as_of days (inr i) =
    Any-append_right (λ s. s ≡ blocked) (cashflows_of inputs as_of days).confidence_states _
      (issue_impacts-blocked _ as_of inputs.issues i)

-- An external cashflow of the period without an amount, or an open issue of the period's performance
-- that is dated in it or not dated, makes the period blocked; then it has no gain and is not shown,
-- whatever the values at its ends.
pub calculate_period_blocked :
    (inputs : Inputs) (as_of : ℤ) (days : ℕ)
    → Any (IsAmountMissing (start_of inputs as_of days) as_of) inputs.cashflows
      ⊎ Any (λ i. is_in_scope (start_of inputs as_of days) as_of i ≡ true) inputs.issues
    → let p = calculate_period inputs as_of days in
      (p.confidence_state ≡ blocked)
      × (p.investment_gain_usd ≡ none)
      × (p.period_performance_visible ≡ false)
unfolding calculate_period states_of
calculate_period_blocked inputs as_of days cause =
    let state =
      max_confidence-blocked (states_of inputs as_of days)
        (inr (inr (states_blocked inputs as_of days cause))) in
    let gone = no_gain _ _ _ _ _ state in (state, gone, rw gone refl)
