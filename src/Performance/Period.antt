-- ===== src/Performance/Period.antt =====
-- `calculate_rolling_performance`: a period, and the periods of a summary.
use portfolio_tracker_public.Prelude.{
  ℕ, zero, suc, ◌*◌, ◌/◌, ◌%◌, ◌≤◌, ◌≡◌, refl, String, ◌<>◌, List, [], ◌∷◌, ◌++◌, map, Option, none,
  some, Bool, true, false, not, ◌&&◌, ◌==◌, string_eq, is_none, if◌then◌else◌, ltb, arith, ap,
  Bool-cases, inl, inr,
}
use portfolio_tracker_public.Prelude.Dict.{fromkeys}
use portfolio_tracker_public.Prelude.Int.{ℤ, pos, ◌+ℤ◌, ◌-ℤ◌}
use portfolio_tracker_public.Prelude.Decimal.{Decimal}
use portfolio_tracker_public.Confidence.{Confidence, trusted, warning, max_confidence}
use portfolio_tracker_public.Capital.Impacts.{needs_review}
use portfolio_tracker_public.Performance.Types.{
  HistoricalValueResult, PeriodCashflow, PeriodIssue, BoundaryImpact, PeriodCashflows, IssueImpact,
  RollingPerformancePeriod, RollingPerformanceSummary,
}
use portfolio_tracker_public.Performance.Boundary.{
  boundary_lookup, boundary_impact, period_reference_value,
}
use portfolio_tracker_public.Performance.Cashflows.{period_cashflows, period_issue_impacts}

abbrev pub day_micros : ℕ
day_micros = 86_400_000_000

abbrev nth_digit : List String → ℕ → String
nth_digit [] n = ""
nth_digit (d ∷ ds) zero = d
nth_digit (d ∷ ds) (suc n) = nth_digit ds n

abbrev digit : ℕ → String
digit n = nth_digit ("0" ∷ "1" ∷ "2" ∷ "3" ∷ "4" ∷ "5" ∷ "6" ∷ "7" ∷ "8" ∷ "9" ∷ []) n

-- The decimal digits of a number, with fuel.
unfoldable pub digits : ℕ → ℕ → String
digits zero n = digit (n % 10)
digits (suc fuel) n =
    let rest = digits fuel (n / 10) in if ltb n 10 then digit n else rest <> digit (n % 10)

-- A number has enough fuel in itself: more changes nothing.
digits_enough : (fuel n : ℕ) → n ≤ fuel → digits fuel n ≡ digits (suc fuel) n
unfolding digits
digits_enough zero n h = let e : n ≡ 0 = omega arith in rw e refl
digits_enough (suc fuel) n h = elim (Bool-cases (ltb n 10)) [
  | inl e ↦ rw e refl
  | inr e ↦
      let fewer : n / 10 ≤ fuel = ground arith in
      rw e (ap (λ s. s <> digit (n % 10)) (digits_enough fuel (n / 10) fewer))
]

-- `_period_label`
unfoldable pub period_label : ℕ → String
period_label days = digits days days <> "D"

unfoldable pub investment_gain :
    Option Decimal → Option Decimal → Decimal → Decimal → Confidence → Option Decimal
investment_gain none e deposits withdrawals state = none
investment_gain (some s) none deposits withdrawals state = none
investment_gain (some s) (some e) deposits withdrawals state =
    if needs_review state then none else some (e -ℤ s -ℤ deposits +ℤ withdrawals)

-- `confidence_state in _VISIBLE_CONFIDENCE_STATES`
abbrev pub is_visible : Confidence → Bool
is_visible trusted = true
is_visible warning = true
is_visible _ = false

-- What all periods of a summary are calculated from.
pub record Inputs : Type 0 where
  pub boundary_values : List HistoricalValueResult
  pub cashflows : List PeriodCashflow
  pub issues : List PeriodIssue

module _ (inputs : Inputs) where
  abbrev pub start_of : ℤ → ℕ → ℤ
  start_of as_of days = as_of -ℤ pos (days * day_micros)

  unfoldable pub start_boundary : ℤ → ℕ → BoundaryImpact
  start_boundary as_of days =
      boundary_impact "start_boundary"
        (boundary_lookup inputs.boundary_values (start_of as_of days))

  unfoldable pub end_boundary : ℤ → BoundaryImpact
  end_boundary as_of = boundary_impact "end_boundary" (boundary_lookup inputs.boundary_values as_of)

  unfoldable pub cashflows_of : ℤ → ℕ → PeriodCashflows
  cashflows_of as_of days =
      period_cashflows (start_of as_of days) as_of inputs.cashflows (
        period_reference_value (start_boundary as_of days).value_usd (end_boundary as_of).value_usd)

  unfoldable pub issues_of : ℤ → ℕ → List IssueImpact
  issues_of as_of days = period_issue_impacts (start_of as_of days) as_of inputs.issues

  unfoldable pub states_of : ℤ → ℕ → List Confidence
  states_of as_of days =
      (start_boundary as_of days).effective_confidence_state
      ∷ (end_boundary as_of).effective_confidence_state
      ∷ ((cashflows_of as_of days).confidence_states
          ++ map (λ i. i.confidence_state) (issues_of as_of days))

  unfoldable pub calculate_period : ℤ → ℕ → RollingPerformancePeriod
  calculate_period as_of days =
      let first = start_boundary as_of days in
      let last = end_boundary as_of in
      let moved = cashflows_of as_of days in
      let state = max_confidence (states_of as_of days) in
      let gain =
        investment_gain first.value_usd last.value_usd moved.deposits_usd moved.withdrawals_usd
          state in
      record {
        label = period_label days;
        days = days;
        start_at = start_of as_of days;
        end_at = as_of;
        starting_value_usd = first.value_usd;
        ending_value_usd = last.value_usd;
        deposits_usd = moved.deposits_usd;
        withdrawals_usd = moved.withdrawals_usd;
        investment_gain_usd = gain;
        confidence_state = state;
        reason_codes = fromkeys (
            first.reason_codes
            ++ (last.reason_codes
                ++ (moved.reason_codes ++ map (λ i. i.reason_code) (issues_of as_of days))));
        start_boundary_confidence_state = first.confidence_state;
        end_boundary_confidence_state = last.confidence_state;
        period_performance_visible = not (is_none gain) && is_visible state;
      }

  unfoldable pub calculate_rolling_performance : ℤ → List ℕ → ℕ → RollingPerformanceSummary
  calculate_rolling_performance as_of periods_days default_period_days = record {
    as_of = as_of;
    default_period_label = period_label default_period_days;
    periods = map (calculate_period as_of) periods_days;
  }

-- The property `default_period`.
unfoldable pub first_labelled :
    String → List RollingPerformancePeriod → Option RollingPerformancePeriod
first_labelled label [] = none
first_labelled label (period ∷ periods) =
    let rest = first_labelled label periods in if period.label == label then some period else rest

unfoldable pub default_period : RollingPerformanceSummary → Option RollingPerformancePeriod
default_period summary = first_labelled summary.default_period_label summary.periods
