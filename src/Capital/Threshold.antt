-- ===== src/Capital/Threshold.antt =====
-- How large an amount is against the portfolio: `_threshold_state`, which
-- accounting_performance.py repeats as `_materiality_confidence_state`.
use portfolio_tracker_public.Prelude.{
  ◌<◌, ◌⊎◌, ◌≢◌, ◌↔◌, ℕ, ◌*◌, ◌≤◌, ◌≡◌, ◌||◌, Option, none, some, arith, if◌then◌else◌,
}
use portfolio_tracker_public.Prelude.Int.{ℤ, pos, abs, max_ℤ, ltb_ℤ, ◌*ℤ◌, ◌≤ℤ◌, pos_part}
use portfolio_tracker_public.Prelude.Decimal.{Decimal, units, whole, widen, basis_points}
use portfolio_tracker_public.Confidence.{
  Confidence, trusted, warning, provisional, review_required, blocked, rank,
}

-- The ladder of tests, on an amount that is not negative. All six numbers are in one unit.
unfoldable pub threshold_ladder : ℤ → ℤ → ℤ → ℤ → ℤ → Confidence
threshold_ladder amount warning_absolute warning_relative provisional_threshold blocked_threshold =
    if ltb_ℤ blocked_threshold amount
    then blocked
    else if ltb_ℤ provisional_threshold amount
    then provisional
    else if ltb_ℤ warning_absolute amount || ltb_ℤ warning_relative amount
    then warning
    else trusted

unfoldable pub threshold_state : Option Decimal → Option Decimal → Confidence
unfolding threshold_ladder
threshold_state none portfolio_value = trusted
threshold_state (some amount_usd) none =
    if ltb_ℤ (pos 0) (abs amount_usd) then provisional else trusted
threshold_state (some amount_usd) (some portfolio_value) =
    threshold_ladder (widen (abs amount_usd)) (widen (whole 10)) (basis_points portfolio_value 1)
      (max_ℤ (widen (whole 100)) (basis_points portfolio_value 100))
      (basis_points portfolio_value 500)

threshold_ladder_mono :
    (a b w r p k : ℤ)
    → a ≤ℤ b
    → rank (threshold_ladder a w r p k) ≤ rank (threshold_ladder b w r p k)
unfolding threshold_ladder
threshold_ladder_mono a b w r p k h = ground arith

widen-abs_mono : (a b : Decimal) → abs a ≤ℤ abs b → widen (abs a) ≤ℤ widen (abs b)
unfolding ◌*ℤ◌
widen-abs_mono a b h = ground arith

-- A larger amount is never in a milder state, against the same portfolio value or none.
threshold_state_mono :
    (a b : Decimal) (v : Option Decimal)
    → abs a ≤ℤ abs b
    → rank (threshold_state (some a) v) ≤ rank (threshold_state (some b) v)
unfolding threshold_state
threshold_state_mono a b none h = ground arith
threshold_state_mono a b (some v) h =
    threshold_ladder_mono (widen (abs a)) (widen (abs b)) (widen (whole 10)) (basis_points v 1)
      (max_ℤ (widen (whole 100)) (basis_points v 100)) (basis_points v 500) (widen-abs_mono a b h)

-- The thresholds of a portfolio worth `n` units, for an amount of `m` units either way.
abbrev pub IsOverBlocked : ℕ → ℕ → Type 0
IsOverBlocked n m = n < 20 * m

abbrev pub IsOverProvisional : ℕ → ℕ → Type 0
IsOverProvisional n m = (100 * units < m) × (n < 100 * m)

-- Above either of the two, not only above the larger one.
abbrev pub IsOverWarning : ℕ → ℕ → Type 0
IsOverWarning n m = (10 * units < m) ⊎ (n < 10_000 * m)

ladder_of_parts : (n m : ℕ) → Confidence
ladder_of_parts n m =
    threshold_ladder (pos (m * 10_000)) (pos (10 * units * 10_000)) (pos n)
      (max_ℤ (pos (100 * units * 10_000)) (pos (n * 100))) (pos (n * 500))

threshold_state-eq-ladder :
    (a : Decimal) (n : ℕ)
    → threshold_state (some a) (some (pos n)) ≡ ladder_of_parts n (pos_part (abs a))
unfolding threshold_state ladder_of_parts ◌*ℤ◌
threshold_state-eq-ladder a n = ground arith

ladder_blocked : (n m : ℕ) → (ladder_of_parts n m ≡ blocked) ↔ IsOverBlocked n m
unfolding ladder_of_parts threshold_ladder
ladder_blocked n m = ground arith

ladder_provisional :
    (n m : ℕ) → (ladder_of_parts n m ≡ provisional) ↔ ((20 * m ≤ n) × IsOverProvisional n m)
unfolding ladder_of_parts threshold_ladder
ladder_provisional n m = ground arith

ladder_trusted :
    (n m : ℕ)
    → (ladder_of_parts n m ≡ trusted) ↔ ((20 * m ≤ n) × (m ≤ 10 * units) × (10_000 * m ≤ n))
unfolding ladder_of_parts threshold_ladder
ladder_trusted n m = ground arith

ladder_warning :
    (n m : ℕ)
    → (ladder_of_parts n m ≡ warning)
      ↔ ((20 * m ≤ n) × IsOverWarning n m × ((m ≤ 100 * units) ⊎ (100 * m ≤ n)))
unfolding ladder_of_parts threshold_ladder
ladder_warning n m = ground arith

ladder_never_review : (n m : ℕ) → ladder_of_parts n m ≢ review_required
unfolding ladder_of_parts threshold_ladder
ladder_never_review n m = ground arith

-- Against a portfolio that is not worth less than nothing: an amount blocks exactly above 5%. Up to 5%,
-- it is provisional exactly above both 100 and 1%; it is a warning exactly above 10 or above 0.01%, and
-- not above both 100 and 1%; and it is trusted exactly up to both 10 and 0.01%. No state but these four
-- is given.
pub threshold_state_bands :
    (a : Decimal) (n : ℕ)
    → let m = pos_part (abs a) in
      let state = threshold_state (some a) (some (pos n)) in
      ((state ≡ blocked) ↔ IsOverBlocked n m)
      × ((state ≡ provisional) ↔ ((20 * m ≤ n) × IsOverProvisional n m))
      × ((state ≡ warning)
          ↔ ((20 * m ≤ n) × IsOverWarning n m × ((m ≤ 100 * units) ⊎ (100 * m ≤ n))))
      × ((state ≡ trusted) ↔ ((20 * m ≤ n) × (m ≤ 10 * units) × (10_000 * m ≤ n)))
      × (state ≢ review_required)
threshold_state_bands a n =
    let m = pos_part (abs a) in
    rw (threshold_state-eq-ladder a n) (
      ladder_blocked n m,
      ladder_provisional n m,
      ladder_warning n m,
      ladder_trusted n m,
      ladder_never_review n m,
    )
