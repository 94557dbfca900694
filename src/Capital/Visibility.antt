-- ===== src/Capital/Visibility.antt =====
-- When the summary shows the portfolio's value and the profit.
use portfolio_tracker_public.Prelude.{
  ◌≡◌, ◌↔◌, refl, Option, none, some, Bool, true, false, ◌&&◌, not, if◌then◌else◌, string_eq, arith,
  is_none,
}
use portfolio_tracker_public.Prelude.Decimal.{Decimal, Ratio}
use portfolio_tracker_public.Prelude.Int.{pos, ◌-ℤ◌, ◌*ℤ◌, eqb_ℤ}
use portfolio_tracker_public.Capital.Types.{CapitalCurrentValue, CapitalInputs, derived_stat_scopes}
use portfolio_tracker_public.Capital.Impacts.{
  needs_review, intersects, coverage_impact, unresolved_coverage, trusted_amount,
  trusted_current_value,
}
use portfolio_tracker_public.Capital.Summary.{
  portfolio_value, blocked_scopes_of, totals, all_impacts, current_value_scopes, derived_stats,
  calculate_capital_truth,
}

-- The evidence that the value rests on is complete.
pub record IsReconciled (v : CapitalCurrentValue) : Type 0 where
  pub holdings : v.holdings_reconciled ≡ true
  pub broker_cash : v.broker_cash_reconciled ≡ true
  pub stablecoin_reserve : v.stablecoin_reserve_reconciled ≡ true
  pub position_existence : v.position_existence_reconciled ≡ true
  pub reviewed : needs_review v.confidence_state ≡ false

trusted_amount_iff :
    (v : CapitalCurrentValue) (o : Option Decimal) (x : Decimal)
    → ((trusted_amount v o).0 ≡ some x) ↔ ((o ≡ some x) × IsReconciled v)
unfolding trusted_amount unresolved_coverage coverage_impact
trusted_amount_iff v none x = (λ h. cc, λ h. cc (h.0))
trusted_amount_iff v (some y) x = ground arith

-- The value is shown exactly when it is known, all four kinds of evidence are reconciled, its own
-- confidence is below review, and no impact blocks the current value; it is then shown unchanged.
pub current_value_visible :
    (inputs : CapitalInputs) (x : Decimal)
    → let summary = calculate_capital_truth inputs in
      (summary.current_portfolio_value_usd ≡ some x) ↔ (
        (inputs.current_value.value_usd ≡ some x)
        × IsReconciled inputs.current_value
        × (intersects summary.blocked_metric_scopes current_value_scopes ≡ false))
unfolding calculate_capital_truth portfolio_value trusted_current_value
current_value_visible inputs x =
    let value = trusted_amount_iff inputs.current_value inputs.current_value.value_usd x in
    ground (arith, value.0, value.1)

-- The profit behind its two guards, and the value behind the first.
abbrev shown : Bool → Bool → Option Decimal → Decimal → Option Decimal × Option Ratio
shown allowed free value net = derived_stats ((not (is_none value) && allowed) && free) value net

abbrev shown_value : Bool → Option Decimal → Option Decimal
shown_value allowed value = if not (is_none value) && allowed then value else none

shown_pnl :
    (allowed free : Bool) (value : Option Decimal) (net p : Decimal)
    → ((shown allowed free value net).0 ≡ some p)
      ↔ ((x : Decimal) × (shown_value allowed value ≡ some x) × (free ≡ true) × (p ≡ x -ℤ net))
shown_pnl allowed free none net p = (λ h. cc, λ h. cc (h.1))
shown_pnl false free (some v) net p = (λ h. cc, λ h. cc (h.1))
shown_pnl true false (some v) net p = (λ h. cc, λ h. cc (h.2))
shown_pnl true true (some v) net p = (λ h. (v, refl, refl, ground arith), λ h. ground arith)

shown_pct :
    (allowed free : Bool) (value : Option Decimal) (net p : Decimal)
    → (shown allowed free value net).0 ≡ some p
    → (shown allowed free value net).1
      ≡ (if eqb_ℤ net (pos 0) then none else some (record { num = p *ℤ pos 100; den = net }))
shown_pct allowed free none net p h = cc
shown_pct false free (some v) net p h = cc
shown_pct true false (some v) net p h = cc
shown_pct true true (some v) net p h = let e : v -ℤ net ≡ p = ground arith in rw e refl

hidden_pct :
    (allowed free : Bool) (value : Option Decimal) (net : Decimal)
    → (shown allowed free value net).0 ≡ none
    → (shown allowed free value net).1 ≡ none
hidden_pct allowed free none net h = refl
hidden_pct false free (some v) net h = refl
hidden_pct true false (some v) net h = refl
hidden_pct true true (some v) net h = cc

not_iff : (b : Bool) → (not b ≡ true) ↔ (b ≡ false)
not_iff b = ground arith

-- The profit is shown exactly when the value is and no derived statistic is blocked; it is the value
-- less the net capital. A percentage is shown exactly when the profit is and the net capital is not
-- zero, and is 100 times the profit over the net capital.
pub lifetime_pnl_visible :
    (inputs : CapitalInputs)
    → let summary = calculate_capital_truth inputs in
      let net = summary.net_capital_at_work_usd in
      let free = intersects summary.blocked_metric_scopes derived_stat_scopes ≡ false in
      ((p : Decimal)
        → (summary.lifetime_pnl_usd ≡ some p) ↔ (
            (x : Decimal) × (summary.current_portfolio_value_usd ≡ some x) × free × (p ≡ x -ℤ net)))
      × ((p : Decimal)
          → summary.lifetime_pnl_usd ≡ some p
          → summary.return_pct
            ≡ (if eqb_ℤ net (pos 0) then none else some (record { num = p *ℤ pos 100; den = net })))
      × (summary.lifetime_pnl_usd ≡ none → summary.return_pct ≡ none)
unfolding calculate_capital_truth
lifetime_pnl_visible inputs =
    let scopes = blocked_scopes_of (all_impacts inputs) in
    let allowed = not (intersects scopes current_value_scopes) in
    let hit = intersects scopes derived_stat_scopes in
    let value = portfolio_value inputs in
    let net = (totals inputs).gross_deposits -ℤ (totals inputs).gross_withdrawals in
    (
      λ p.
          let e = shown_pnl allowed (not hit) value net p in
          (
            λ h. let (x, v, f, q) = e.0 h in (x, v, (not_iff hit).0 f, q),
            λ h. let (x, v, f, q) = h in e.1 (x, v, (not_iff hit).1 f, q),
          ),
      λ p. shown_pct allowed (not hit) value net p,
      hidden_pct allowed (not hit) value net,
    )
