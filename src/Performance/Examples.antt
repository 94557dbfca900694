-- ===== src/Performance/Examples.antt =====
-- Runs of the rolling performance, and its theorems at concrete inputs.
use portfolio_tracker_public.Prelude.{
  ℕ, ◌*◌, ◌+◌, ◌≤◌, ◌≡◌, refl, ◌↔◌, inl, String, List, [], ◌∷◌, map, Option, none, some, true,
  false, string_eq,
}
use portfolio_tracker_public.Prelude.Text.{lower}
use portfolio_tracker_public.Prelude.Dict.{fromkeys}
use portfolio_tracker_public.Prelude.Decimal.{Decimal, whole}
use portfolio_tracker_public.Prelude.Int.{ℤ, pos, ◌+ℤ◌, ◌-ℤ◌, ◌*ℤ◌}
use portfolio_tracker_public.Confidence.{trusted, blocked, rank, max_confidence, label}
use portfolio_tracker_public.Capital.Impacts.{needs_review}
use portfolio_tracker_public.Capital.Threshold.{threshold_state}
use portfolio_tracker_public.Performance.Types.{
  HistoricalValueResult, PeriodCashflow, RollingPerformanceSummary,
}
use portfolio_tracker_public.Performance.Boundary.{
  boundary_lookup, effective_boundary_confidence, boundary_reasons, boundary_impact,
  period_reference_value,
}
use portfolio_tracker_public.Performance.Cashflows.{
  is_inside_period, coerce_confidence_state, period_materiality, materiality_confidence_state,
  cashflow_confidence_state, add_confidence, add_moved, add_period_cashflow, add_period_cashflows,
  period_cashflows, period_issue_impacts,
}
use portfolio_tracker_public.Performance.Period.{
  Inputs, day_micros, start_of, period_label, digits, investment_gain, start_boundary, end_boundary,
  cashflows_of, issues_of, states_of, calculate_period, calculate_rolling_performance,
}
use portfolio_tracker_public.Performance.Gain.{calculate_period-gain}
use portfolio_tracker_public.Performance.Totals.{moved_total, calculate_period-cashflows}
use portfolio_tracker_public.Performance.Tiling.{
  calculate_period-cashflows-tile, calculate_period-gain-tile,
}
use portfolio_tracker_public.Performance.Blocking.{calculate_period_blocked}

abbrev day : ℕ → ℤ
day n = pos (n * day_micros)

abbrev worth : ℕ → ℕ → HistoricalValueResult
worth n dollars = record {
  as_of = day n;
  value_usd = some (whole dollars);
  source = "anchor";
  confidence_state = trusted;
  reason_codes = "exact_anchor" ∷ [];
  sensitive_metrics_visible = true;
}

abbrev cashflow : String → Option Decimal → ℕ → PeriodCashflow
cashflow kind amount n = record {
  cashflow_type = kind;
  capital_effect_usd = none;
  amount_usd = amount;
  occurred_at = some (day n);
  confidence_state = "trusted";
  status = "active";
  materiality_usd = none;
  reason_code = none;
}

abbrev inputs : Inputs
inputs = record {
  boundary_values = worth 70 1000 ∷ worth 93 1500 ∷ worth 100 1400 ∷ [];
  cashflows =
      cashflow "external_deposit" (some (whole 300)) 93
      ∷ cashflow "External_Withdrawal" (some (whole 50)) 95
      ∷ cashflow "external_deposit" (some (whole 999)) 70
      ∷ [];
  issues = [];
}

abbrev unknown_amount : Inputs
unknown_amount = record inputs { cashflows = cashflow "external_deposit" none 99 ∷ [] }

run : Inputs → ℤ → List ℕ → ℕ → RollingPerformanceSummary
unfolding calculate_rolling_performance calculate_period states_of issues_of cashflows_of
    end_boundary start_boundary investment_gain period_label digits period_issue_impacts
    period_cashflows add_period_cashflows add_period_cashflow add_moved add_confidence
    cashflow_confidence_state materiality_confidence_state period_materiality
    coerce_confidence_state is_inside_period period_reference_value boundary_impact boundary_reasons
    effective_boundary_confidence boundary_lookup max_confidence label threshold_state fromkeys
    lower string_eq ◌+ℤ◌ ◌-ℤ◌ ◌*ℤ◌
run = calculate_rolling_performance

gains_run :
    map (λ p. p.investment_gain_usd) (run inputs (day 100) (7 ∷ 23 ∷ 30 ∷ []) 30).periods
    ≡ some (pos 0 -ℤ whole 50) ∷ none ∷ some (whole 150) ∷ []
unfolding run
gains_run = refl

labels_run :
    map (λ p. p.label) (run inputs (day 100) (7 ∷ 30 ∷ 90 ∷ []) 30).periods
    ≡ "7D" ∷ "30D" ∷ "90D" ∷ []
unfolding run
labels_run = refl

gain_example :
    let p = calculate_period inputs (day 100) 7 in
    ((g : Decimal)
      → (p.investment_gain_usd ≡ some g) ↔ (
          (x : Decimal) × (y : Decimal) × (p.starting_value_usd ≡ some x)
          × (p.ending_value_usd ≡ some y)
          × (needs_review p.confidence_state ≡ false)
          × (g ≡ y -ℤ x -ℤ p.deposits_usd +ℤ p.withdrawals_usd)))
    × ((p.period_performance_visible ≡ true)
        ↔ (((g : Decimal) × (p.investment_gain_usd ≡ some g)) × (rank p.confidence_state ≤ 1)))
gain_example = calculate_period-gain inputs (day 100) 7

cashflows_example :
    let p = calculate_period inputs (day 100) 7 in
    (p.deposits_usd ≡ moved_total "external_deposit" p.start_at p.end_at inputs.cashflows)
    × (p.withdrawals_usd ≡ moved_total "external_withdrawal" p.start_at p.end_at inputs.cashflows)
cashflows_example = calculate_period-cashflows inputs (day 100) 7

cashflows_tile_example :
    let long = calculate_period inputs (day 100) (23 + 7) in
    let earlier = calculate_period inputs (start_of inputs (day 100) 7) 23 in
    let later = calculate_period inputs (day 100) 7 in
    (long.deposits_usd ≡ earlier.deposits_usd +ℤ later.deposits_usd)
    × (long.withdrawals_usd ≡ earlier.withdrawals_usd +ℤ later.withdrawals_usd)
cashflows_tile_example = calculate_period-cashflows-tile inputs (day 100) 23 7

gain_tile_example : whole 150 ≡ whole 200 +ℤ (pos 0 -ℤ whole 50)
unfolding run
gain_tile_example =
    calculate_period-gain-tile inputs (day 100) 23 7 (whole 150) (whole 200) (pos 0 -ℤ whole 50)
      refl refl refl

blocked_example :
    let p = calculate_period unknown_amount (day 100) 7 in
    (p.confidence_state ≡ blocked)
    × (p.investment_gain_usd ≡ none)
    × (p.period_performance_visible ≡ false)
unfolding run
blocked_example =
    calculate_period_blocked unknown_amount (day 100) 7
      (inl (inl (record { counted = refl; external = refl; no_amount = refl })))
