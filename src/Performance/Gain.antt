-- ===== src/Performance/Gain.antt =====
-- The gain of a period, and when it is there.
use portfolio_tracker_public.Prelude.{
  ◌≡◌, refl, ◌↔◌, ◌≤◌, ℕ, Option, none, some, true, false, not, ◌&&◌, is_none, arith, Bool-cases,
  inl, inr,
}
use portfolio_tracker_public.Prelude.Decimal.{Decimal}
use portfolio_tracker_public.Prelude.Int.{ℤ, ◌+ℤ◌, ◌-ℤ◌}
use portfolio_tracker_public.Confidence.{Confidence, rank}
use portfolio_tracker_public.Capital.Impacts.{needs_review}
use portfolio_tracker_public.Performance.Period.{
  Inputs, investment_gain, is_visible, calculate_period,
}

pub investment_gain_iff :
    (s e : Option Decimal) (d w : Decimal) (state : Confidence) (g : Decimal)
    → (investment_gain s e d w state ≡ some g) ↔ (
        (x : Decimal) × (y : Decimal) × (s ≡ some x)
        × (e ≡ some y)
        × (needs_review state ≡ false)
        × (g ≡ y -ℤ x -ℤ d +ℤ w))
unfolding investment_gain
investment_gain_iff none e d w state g = (λ h. cc h, λ (x, y, k, _, _, _). cc k)
investment_gain_iff (some x) none d w state g = (λ h. cc h, λ (_, y, _, k, _, _). cc k)
investment_gain_iff (some x) (some y) d w state g = elim (Bool-cases (needs_review state)) [
  | inl r ↦ rw r (λ h. cc h, λ (_, _, _, _, k, _). cc k)
  | inr r ↦ rw r (λ h. (x, y, refl, refl, refl, ground arith), λ (x', y', a, b, _, k). ground arith)
]

visible_iff :
    (gain : Option Decimal) (state : Confidence)
    → ((not (is_none gain) && is_visible state) ≡ true)
      ↔ (((g : Decimal) × (gain ≡ some g)) × (rank state ≤ 1))
visible_iff none state = (λ h. cc h, λ h. cc (h.0.1))
visible_iff (some g) state = (λ h. ((g, refl), ground arith), λ h. ground arith)

-- The gain of a period is there exactly when both ends have a value and the confidence is below
-- review; it is the end less the start and the deposits, plus the withdrawals. It is visible exactly
-- when it is there and the confidence is trusted or a warning.
pub calculate_period-gain :
    (inputs : Inputs) (as_of : ℤ) (days : ℕ)
    → let p = calculate_period inputs as_of days in
      ((g : Decimal)
        → (p.investment_gain_usd ≡ some g) ↔ (
            (x : Decimal) × (y : Decimal) × (p.starting_value_usd ≡ some x)
            × (p.ending_value_usd ≡ some y)
            × (needs_review p.confidence_state ≡ false)
            × (g ≡ y -ℤ x -ℤ p.deposits_usd +ℤ p.withdrawals_usd)))
      × ((p.period_performance_visible ≡ true)
          ↔ (((g : Decimal) × (p.investment_gain_usd ≡ some g)) × (rank p.confidence_state ≤ 1)))
unfolding calculate_period
calculate_period-gain inputs as_of days = (λ g. investment_gain_iff _ _ _ _ _ g, visible_iff _ _)
