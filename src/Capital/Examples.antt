-- ===== src/Capital/Examples.antt =====
-- Runs of the capital summary, and its theorems at a concrete portfolio.
use portfolio_tracker_public.Prelude.{
  ◌*◌, ◌≢◌, ◌⊎◌, ◌↔◌, if◌then◌else◌, false, All, ℕ, ◌≤◌, ◌≡◌, refl, String, List, [], ◌∷◌, none,
  some, true, contains, string_eq,
}
use portfolio_tracker_public.Prelude.Text.{lower}
use portfolio_tracker_public.Prelude.Dict.{fromkeys}
use portfolio_tracker_public.Prelude.Decimal.{Ratio, units, Decimal, whole}
use portfolio_tracker_public.Prelude.Int.{eqb_ℤ, abs, pos_part, ◌<ℤ◌, pos, ◌+ℤ◌, ◌-ℤ◌, ◌*ℤ◌}
use portfolio_tracker_public.Confidence.{
  warning, review_required, Confidence, trusted, provisional, blocked, rank, max_confidence, label,
}
use portfolio_tracker_public.Capital.Calendar.{
  Datetime, before_eq, instant, ordinal, min_date, days_between,
}
use portfolio_tracker_public.Capital.Types.{
  ConfidenceImpact, CapitalCashflow, CapitalCurrentValue, CapitalIssue, CapitalInputs,
  CapitalTruthSummary, derived_stat_scopes,
}
use portfolio_tracker_public.Capital.Threshold.{
  IsOverBlocked, IsOverProvisional, IsOverWarning, threshold_ladder, threshold_state_bands,
  threshold_state,
}
use portfolio_tracker_public.Capital.Impacts.{
  intersects, cashflow_impacts, unresolved_coverage, coverage_impact, value_impacts, reason_impacts,
  trusted_amount, trusted_current_value, impact_for_issue, block_if_sensitive, decision_impacts,
  issue_impacts, cashflow_materiality,
}
use portfolio_tracker_public.Capital.Totals.{calculate_capital_truth-totals, external_total}
use portfolio_tracker_public.Capital.Gravity.{calculate_capital_truth-confidence}
use portfolio_tracker_public.Capital.Scopes.{confidence_below_review}
use portfolio_tracker_public.Capital.ReviewTask.{IsFirstGravest, top_review_task-IsFirstGravest}
use portfolio_tracker_public.Capital.Elapsed.{monthly_averages_defined}
use portfolio_tracker_public.Capital.Visibility.{
  current_value_visible, lifetime_pnl_visible, IsReconciled,
}
use portfolio_tracker_public.Capital.Sensitive.{sensitive_issue_blocks, below_review_shows}
use portfolio_tracker_public.Capital.Summary.{
  is_ranked, add_amount, add_cashflow, add_cashflows, totals, portfolio_value, occurred_dates,
  first_activity_date, first_activity, elapsed_between, elapsed_months, monthly_average, all_scopes,
  blocked_scopes_of, insert_ranked, sort_ranked, top_review_task_id, all_decision_impacts,
  all_impacts, current_value_scopes, calculate_capital_truth,
}

abbrev january : Datetime
january = record { year = 2024; month = 1; day = 15; time = 0 }

abbrev april : Datetime
april = record { year = 2024; month = 4; day = 20; time = 3_600_000_000 }

abbrev cashflow : String → ℕ → Confidence → String → CapitalCashflow
cashflow kind amount state status = record {
  cashflow_type = kind;
  capital_effect_usd = some (whole amount);
  amount_usd = none;
  occurred_at = some january;
  confidence_state = state;
  status = status;
  materiality_usd = none;
  reason_code = none;
  review_task_id = some "task-7";
}

abbrev deposits : List CapitalCashflow
deposits =
    cashflow "External_Deposit" 1000 trusted "active"
    ∷ cashflow "external_deposit" 20 provisional "active"
    ∷ cashflow "external_deposit" 999 trusted "voided"
    ∷ cashflow "external_withdrawal" 200 trusted "active"
    ∷ cashflow "not_external_cashflow" 50 blocked "active"
    ∷ []

abbrev value : CapitalCurrentValue
value = record {
  value_usd = some (whole 2000);
  as_of = some april;
  holdings_reconciled = true;
  broker_cash_reconciled = true;
  stablecoin_reserve_reconciled = true;
  position_existence_reconciled = true;
  confidence_state = trusted;
  reason_codes = [];
}

abbrev portfolio : CapitalInputs
portfolio = record {
  current_value = value;
  cashflows = deposits;
  transfer_links = [];
  import_approvals = [];
  cost_basis_decisions = [];
  issues = [];
  activity_dates = [];
}

abbrev cash_issue : CapitalIssue
cash_issue = record {
  reason_code = "broker_cash_gap";
  amount_usd = some (whole 0);
  affected_metric_scopes = "broker_cash" ∷ "lifetime_pnl" ∷ [];
  severity = none;
  review_task_id = some "task-9";
  status = "open";
}

abbrev disputed : CapitalInputs
disputed = record portfolio { issues = cash_issue ∷ [] }

summary : CapitalInputs → CapitalTruthSummary
unfolding calculate_capital_truth totals add_cashflows add_cashflow add_amount lower string_eq
    cashflow_impacts cashflow_materiality threshold_state max_confidence label portfolio_value
    trusted_current_value trusted_amount unresolved_coverage coverage_impact value_impacts
    reason_impacts all_impacts all_decision_impacts decision_impacts issue_impacts impact_for_issue
    block_if_sensitive intersects first_activity first_activity_date occurred_dates elapsed_months
    elapsed_between before_eq instant ordinal min_date days_between monthly_average
    blocked_scopes_of all_scopes fromkeys top_review_task_id sort_ranked insert_ranked ◌+ℤ◌ ◌-ℤ◌
    ◌*ℤ◌
summary = calculate_capital_truth

portfolio_runs :
    (((summary portfolio).gross_deposits_usd ≡ whole 1020)
      × ((summary portfolio).lifetime_pnl_usd ≡ some (whole 1180))
      × ((summary portfolio).confidence_state ≡ provisional)
      × ((summary portfolio).elapsed_months ≡ some (record { num = pos 3; den = pos 1 }))
      × ((summary portfolio).top_review_task_id ≡ none))
unfolding summary
portfolio_runs = (refl, refl, refl, refl, refl)

disputed_runs :
    ((summary disputed).lifetime_pnl_usd ≡ none)
    × ((summary disputed).current_portfolio_value_usd ≡ some (whole 2000))
    × ((summary disputed).blocked_metric_scopes ≡ "broker_cash" ∷ "lifetime_pnl" ∷ [])
    × ((summary disputed).top_review_task_id ≡ some "task-9")
unfolding summary
disputed_runs = (refl, refl, refl, refl)

totals_example :
    ((calculate_capital_truth portfolio).gross_deposits_usd
      ≡ external_total "external_deposit" deposits)
    × ((calculate_capital_truth portfolio).gross_withdrawals_usd
        ≡ external_total "external_withdrawal" deposits)
    × ((calculate_capital_truth portfolio).net_capital_at_work_usd
        ≡ external_total "external_deposit" deposits
          -ℤ external_total "external_withdrawal" deposits)
totals_example = calculate_capital_truth-totals portfolio

below_review_shows_example :
    (x : Decimal) × (portfolio.current_value.value_usd ≡ some x)
    × IsReconciled portfolio.current_value
    × ((calculate_capital_truth portfolio).blocked_metric_scopes ≡ [])
    × ((calculate_capital_truth portfolio).current_portfolio_value_usd ≡ some x)
    × ((calculate_capital_truth portfolio).lifetime_pnl_usd
        ≡ some (x -ℤ (calculate_capital_truth portfolio).net_capital_at_work_usd))
unfolding summary
below_review_shows_example = below_review_shows portfolio refl

sensitive_issue_blocks_example :
    ((calculate_capital_truth disputed).confidence_state ≡ blocked)
    × (contains (calculate_capital_truth disputed).blocked_metric_scopes "lifetime_pnl" ≡ true)
    × (contains derived_stat_scopes "lifetime_pnl" ≡ true
        → (calculate_capital_truth disputed).lifetime_pnl_usd ≡ none)
    × (contains current_value_scopes "lifetime_pnl" ≡ true
        → (calculate_capital_truth disputed).current_portfolio_value_usd ≡ none)
unfolding summary
sensitive_issue_blocks_example =
    sensitive_issue_blocks disputed [] [] cash_issue "lifetime_pnl" refl refl refl refl

confidence_below_review_example : (calculate_capital_truth portfolio).blocked_metric_scopes ≡ []
unfolding summary
confidence_below_review_example = confidence_below_review portfolio refl

current_value_visible_example :
    let summary = calculate_capital_truth portfolio in
    (summary.current_portfolio_value_usd ≡ some (whole 2000)) ↔ (
      (portfolio.current_value.value_usd ≡ some (whole 2000))
      × IsReconciled portfolio.current_value
      × (intersects summary.blocked_metric_scopes current_value_scopes ≡ false))
current_value_visible_example = current_value_visible portfolio (whole 2000)

lifetime_pnl_visible_example :
    let summary = calculate_capital_truth portfolio in
    let net = summary.net_capital_at_work_usd in
    let free = intersects summary.blocked_metric_scopes derived_stat_scopes ≡ false in
    ((p : Decimal)
      → (summary.lifetime_pnl_usd ≡ some p)
        ↔ ((x : Decimal) × (summary.current_portfolio_value_usd ≡ some x) × free × (p ≡ x -ℤ net)))
    × ((p : Decimal)
        → summary.lifetime_pnl_usd ≡ some p
        → summary.return_pct
          ≡ (if eqb_ℤ net (pos 0) then none else some (record { num = p *ℤ pos 100; den = net })))
    × (summary.lifetime_pnl_usd ≡ none → summary.return_pct ≡ none)
lifetime_pnl_visible_example = lifetime_pnl_visible portfolio

top_review_task_example :
    let is = all_impacts disputed in
    let top = (calculate_capital_truth disputed).top_review_task_id in
    (All (λ j. is_ranked j ≡ false) is × (top ≡ none))
    ⊎ ((i : ConfidenceImpact) × IsFirstGravest is i × (top ≡ i.review_task_id))
top_review_task_example = top_review_task-IsFirstGravest disputed

monthly_averages_example :
    let summary = calculate_capital_truth portfolio in
    let per_month = λ (e : Ratio) (total : Decimal).
      some (let r : Ratio = record { num = total *ℤ e.den; den = e.num } in r) in
    (summary.elapsed_months ≡ none
      → (summary.avg_gross_deposit_per_month_usd ≡ none)
        × (summary.avg_gross_withdrawal_per_month_usd ≡ none)
        × (summary.avg_net_capital_added_per_month_usd ≡ none))
    × ((e : Ratio)
        → summary.elapsed_months ≡ some e
        → (pos 0 <ℤ e.num)
          × (pos 0 <ℤ e.den)
          × (summary.avg_gross_deposit_per_month_usd ≡ per_month e summary.gross_deposits_usd)
          × (summary.avg_gross_withdrawal_per_month_usd ≡ per_month e summary.gross_withdrawals_usd)
          × (summary.avg_net_capital_added_per_month_usd
              ≡ per_month e summary.net_capital_at_work_usd))
monthly_averages_example = monthly_averages_defined portfolio

threshold_state_bands_example :
    let m = pos_part (abs (whole 30)) in
    let n = 2000 * units in
    let state = threshold_state (some (whole 30)) (some (whole 2000)) in
    ((state ≡ blocked) ↔ IsOverBlocked n m)
    × ((state ≡ provisional) ↔ ((20 * m ≤ n) × IsOverProvisional n m))
    × ((state ≡ warning) ↔ ((20 * m ≤ n) × IsOverWarning n m × ((m ≤ 100 * units) ⊎ (100 * m ≤ n))))
    × ((state ≡ trusted) ↔ ((20 * m ≤ n) × (m ≤ 10 * units) × (10_000 * m ≤ n)))
    × (state ≢ review_required)
threshold_state_bands_example = threshold_state_bands (whole 30) (2000 * units)

-- An amount above 10 and not above 0.01% of the value is a warning.
small_share-run : threshold_state (some (whole 50)) (some (whole 1_000_000)) ≡ warning
unfolding threshold_state threshold_ladder ◌*ℤ◌
small_share-run = refl

confidence_example :
    let confidence = (calculate_capital_truth disputed).confidence_state in
    All (λ i. rank i.state ≤ rank confidence) (all_impacts disputed)
    × ((state : Confidence)
        → All (λ i. rank i.state ≤ rank state) (all_impacts disputed)
        → rank confidence ≤ rank state)
confidence_example = calculate_capital_truth-confidence disputed

abbrev reversed : List CapitalCashflow
reversed =
    cashflow "external_deposit" 20 provisional "active"
    ∷ cashflow "External_Deposit" 1000 trusted "active"
    ∷ cashflow "external_deposit" 999 trusted "voided"
    ∷ cashflow "external_withdrawal" 200 trusted "active"
    ∷ cashflow "not_external_cashflow" 50 blocked "active"
    ∷ []
