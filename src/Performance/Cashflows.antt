-- ===== src/Performance/Cashflows.antt =====
-- The cashflows and the issues of a period.
use portfolio_tracker_public.Prelude.{
  String, ◌<>◌, List, [], ◌∷◌, ◌++◌, Option, none, some, Bool, false, ◌&&◌, ◌||◌, ◌==◌, string_eq,
  contains, get_or, is_none, if◌then◌else◌,
}
use portfolio_tracker_public.Prelude.Text.{lower}
use portfolio_tracker_public.Prelude.Dict.{fromkeys}
use portfolio_tracker_public.Prelude.Int.{ℤ, pos, ltb_ℤ, leb_ℤ, abs, ◌+ℤ◌}
use portfolio_tracker_public.Prelude.Decimal.{Decimal}
use portfolio_tracker_public.Confidence.{
  Confidence, trusted, warning, provisional, review_required, blocked, max_confidence, label,
}
use portfolio_tracker_public.Capital.Impacts.{is_trusted}
use portfolio_tracker_public.Capital.Threshold.{threshold_state}
use portfolio_tracker_public.Performance.Types.{
  PeriodCashflow, PeriodIssue, PeriodCashflows, IssueImpact,
}

-- After the start, and up to the end.
unfoldable pub is_inside_period : ℤ → ℤ → Option ℤ → Bool
is_inside_period start_at end_at none = false
is_inside_period start_at end_at (some t) = ltb_ℤ start_at t && leb_ℤ t end_at

unfoldable pub coerce_confidence_state : String → Confidence
coerce_confidence_state state =
    if state == "trusted"
    then trusted
    else if state == "warning"
    then warning
    else if state == "provisional"
    then provisional
    else if state == "review_required"
    then review_required
    else blocked

abbrev size_of : Option Decimal → Option Decimal → Option Decimal
size_of (some a) o = some (abs a)
size_of none (some a) = some (abs a)
size_of none none = none

-- `_cashflow_materiality`
unfoldable pub period_materiality : PeriodCashflow → Option Decimal
period_materiality c = elim c.materiality_usd [
  | some materiality ↦ some (abs materiality)
  | none ↦ size_of c.amount_usd c.capital_effect_usd
]

-- `_materiality_confidence_state` repeats `_threshold_state`.
unfoldable pub materiality_confidence_state : Option Decimal → Option Decimal → Confidence
materiality_confidence_state amount_usd reference_value_usd =
    threshold_state amount_usd reference_value_usd

unfoldable pub cashflow_confidence_state : PeriodCashflow → Confidence → Option Decimal → Confidence
cashflow_confidence_state c raw reference =
    if is_trusted raw
    then trusted
    else max_confidence (raw ∷ materiality_confidence_state (period_materiality c) reference ∷ [])

abbrev pub nothing_moved : PeriodCashflows
nothing_moved = record {
  deposits_usd = pos 0;
  withdrawals_usd = pos 0;
  confidence_states = [];
  reason_codes = [];
}

abbrev pub append_reason : Confidence → String → PeriodCashflows → PeriodCashflows
append_reason state reason p = record p {
  confidence_states = p.confidence_states ++ state ∷ [];
  reason_codes = p.reason_codes ++ reason ∷ [];
}

-- What a cashflow of the period does to the states and the reasons.
unfoldable pub add_confidence : Option Decimal → PeriodCashflow → PeriodCashflows → PeriodCashflows
add_confidence reference c p =
    let raw = coerce_confidence_state c.confidence_state in
    let state = cashflow_confidence_state c raw reference in
    if is_trusted state
    then p
    else append_reason state (get_or c.reason_code ("cashflow_confidence_" <> label raw)) p

-- What it does to the two sums, by its amount.
unfoldable pub add_moved : String → Option Decimal → PeriodCashflows → PeriodCashflows
add_moved kind none p =
    if kind == "external_deposit" || kind == "external_withdrawal"
    then append_reason blocked "missing_cashflow_amount" p
    else p
add_moved kind (some amount) p =
    if kind == "external_deposit"
    then record p { deposits_usd = p.deposits_usd +ℤ abs amount }
    else if kind == "external_withdrawal"
    then record p { withdrawals_usd = p.withdrawals_usd +ℤ abs amount }
    else p

abbrev pub moved_amount : PeriodCashflow → Option Decimal
moved_amount c = elim c.capital_effect_usd [ some a ↦ some a | none ↦ c.amount_usd ]

abbrev pub is_counted : ℤ → ℤ → PeriodCashflow → Bool
is_counted start_at end_at c =
    c.status == "active" && is_inside_period start_at end_at c.occurred_at

-- The loop's body and the loop.
unfoldable pub add_period_cashflow :
    ℤ → ℤ → Option Decimal → PeriodCashflows → PeriodCashflow → PeriodCashflows
add_period_cashflow start_at end_at reference p c =
    if is_counted start_at end_at c
    then add_moved (lower c.cashflow_type) (moved_amount c) (add_confidence reference c p)
    else p

unfoldable pub add_period_cashflows :
    ℤ → ℤ → Option Decimal → PeriodCashflows → List PeriodCashflow → PeriodCashflows
add_period_cashflows start_at end_at reference p [] = p
add_period_cashflows start_at end_at reference p (c ∷ cs) =
    add_period_cashflows start_at end_at reference
      (add_period_cashflow start_at end_at reference p c) cs

-- `_period_cashflows`
unfoldable pub period_cashflows : ℤ → ℤ → List PeriodCashflow → Option Decimal → PeriodCashflows
period_cashflows start_at end_at cashflows reference =
    let p = add_period_cashflows start_at end_at reference nothing_moved cashflows in
    record p { reason_codes = fromkeys p.reason_codes }

-- An issue without a date counts in every period.
abbrev pub is_in_scope : ℤ → ℤ → PeriodIssue → Bool
is_in_scope start_at end_at issue =
    issue.status == "open"
    && contains issue.affected_metric_scopes "period_performance"
    && (is_none issue.occurred_at || is_inside_period start_at end_at issue.occurred_at)

-- `_period_issue_impacts`
unfoldable pub period_issue_impacts : ℤ → ℤ → List PeriodIssue → List IssueImpact
period_issue_impacts start_at end_at [] = []
period_issue_impacts start_at end_at (issue ∷ issues) =
    let rest = period_issue_impacts start_at end_at issues in
    if is_in_scope start_at end_at issue
    then record { confidence_state = blocked; reason_code = issue.reason_code } ∷ rest
    else rest
