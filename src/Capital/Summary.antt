-- ===== src/Capital/Summary.antt =====
-- `calculate_capital_truth`: the loop over the cashflows, the dates, and the summary.
use portfolio_tracker_public.Prelude.{
  ◌*◌, ◌+◌, String, List, [], ◌∷◌, ◌++◌, map, Option, none, some, Bool, true, not, ◌&&◌,
  if◌then◌else◌, ltb, leb, ◌==◌, string_eq, keep, is_none,
}
use portfolio_tracker_public.Prelude.Text.{lower}
use portfolio_tracker_public.Prelude.Dict.{fromkeys}
use portfolio_tracker_public.Prelude.Decimal.{Decimal, Ratio}
use portfolio_tracker_public.Prelude.Int.{ℤ, pos, abs, ◌+ℤ◌, ◌-ℤ◌, ◌*ℤ◌, eqb_ℤ, leb_ℤ, sub_ℕ}
use portfolio_tracker_public.Confidence.{provisional, rank, max_confidence}
use portfolio_tracker_public.Capital.Calendar.{Datetime, before_eq, days_between, min_date}
use portfolio_tracker_public.Capital.Types.{
  CapitalCashflow, ConfidenceImpact, CapitalInputs, CapitalTruthSummary, derived_stat_scopes,
}
use portfolio_tracker_public.Capital.Impacts.{
  impact, needs_review, intersects, cashflow_impacts, trusted_current_value, decision_impacts,
  issue_impacts,
}

-- The variables of the loop over the cashflows.
pub record Totals : Type 0 where
  pub gross_deposits : Decimal
  pub gross_withdrawals : Decimal
  pub impacts : List ConfidenceImpact

abbrev pub no_totals : Totals
no_totals = record { gross_deposits = pos 0; gross_withdrawals = pos 0; impacts = [] }

abbrev pub or_else {ℓ} : {A : Type ℓ} → Option A → Option A → Option A
or_else none o = o
or_else (some a) o = some a

-- The amount that a cashflow counts with: its capital effect, or else its amount.
abbrev pub cashflow_amount : CapitalCashflow → Option Decimal
cashflow_amount c = or_else c.capital_effect_usd c.amount_usd

-- The loop's body, by the amount.
unfoldable pub add_amount : Option Decimal → Totals → CapitalCashflow → Option Decimal → Totals
add_amount raw t c none = t
add_amount raw t c (some amount) =
    let cashflow_type = lower c.cashflow_type in
    let more = t.impacts ++ cashflow_impacts raw c amount in
    if cashflow_type == "external_deposit"
    then record t { gross_deposits = t.gross_deposits +ℤ abs amount; impacts = more }
    else if cashflow_type == "external_withdrawal"
    then record t { gross_withdrawals = t.gross_withdrawals +ℤ abs amount; impacts = more }
    else t

unfoldable pub add_cashflow : Option Decimal → Totals → CapitalCashflow → Totals
add_cashflow raw t c = add_amount raw t c (cashflow_amount c)

unfoldable pub add_cashflows : Option Decimal → Totals → List CapitalCashflow → Totals
add_cashflows raw t [] = t
add_cashflows raw t (c ∷ cs) = add_cashflows raw (add_cashflow raw t c) cs

abbrev pub is_active : CapitalCashflow → Bool
is_active c = c.status == "active"

unfoldable pub occurred_dates : List CapitalCashflow → List Datetime
occurred_dates [] = []
occurred_dates (c ∷ cs) =
    let rest = occurred_dates cs in elim c.occurred_at [ none ↦ rest | some d ↦ d ∷ rest ]

unfoldable pub first_activity_date : List CapitalCashflow → List Datetime → Option Datetime
first_activity_date cashflows activity_dates = elim (activity_dates ++ occurred_dates cashflows) [
  | [] ↦ none
  | d ∷ ds ↦ some (min_date d ds)
]

abbrev pub whole_months : Datetime → Datetime → ℤ
whole_months first as_of =
    sub_ℕ (as_of.year * 12 + as_of.month)
      (first.year * 12 + first.month + (if ltb as_of.day first.day then 1 else 0))

unfoldable pub elapsed_between : Datetime → Datetime → Option Ratio
elapsed_between first as_of =
    let months = whole_months first as_of in
    let days = days_between first as_of in
    if before_eq as_of first
    then none
    else if leb_ℤ months (pos 0)
    then if ltb 0 days then some (record { num = pos days; den = pos 30 }) else none
    else some (record { num = months; den = pos 1 })

unfoldable pub elapsed_months : Option Datetime → Option Datetime → Option Ratio
elapsed_months none as_of = none
elapsed_months (some first) none = none
elapsed_months (some first) (some as_of) = elapsed_between first as_of

-- One of `_monthly_averages`: `total / elapsed_months`.
unfoldable pub monthly_average : Option Ratio → Decimal → Option Ratio
monthly_average none total = none
monthly_average (some e) total =
    if leb_ℤ e.num (pos 0) then none else some (record { num = total *ℤ e.den; den = e.num })

abbrev pub reason_codes_of : List ConfidenceImpact → List String
reason_codes_of impacts = fromkeys (map (λ i. i.reason_code) impacts)

unfoldable pub all_scopes : List ConfidenceImpact → List String
all_scopes [] = []
all_scopes (i ∷ is) = i.blocked_scopes ++ all_scopes is

unfoldable pub blocked_scopes_of : List ConfidenceImpact → List String
blocked_scopes_of impacts = fromkeys (all_scopes impacts)

-- `sorted(…, reverse=True)`: the highest first, and equal ones in their order.
unfoldable pub insert_ranked : ConfidenceImpact → List ConfidenceImpact → List ConfidenceImpact
insert_ranked i [] = i ∷ []
insert_ranked i (j ∷ js) =
    let later = insert_ranked i js in
    if leb (rank j.state) (rank i.state) then i ∷ (j ∷ js) else j ∷ later

unfoldable pub sort_ranked : List ConfidenceImpact → List ConfidenceImpact
sort_ranked [] = []
sort_ranked (i ∷ is) = insert_ranked i (sort_ranked is)

abbrev pub is_ranked : ConfidenceImpact → Bool
is_ranked i = not (is_none i.review_task_id) && needs_review i.state

abbrev pub first_task : List ConfidenceImpact → Option String
first_task [] = none
first_task (i ∷ _) = i.review_task_id

unfoldable pub top_review_task_id : List ConfidenceImpact → Option String
top_review_task_id impacts = first_task (sort_ranked (keep is_ranked impacts))

abbrev pub missing_first_activity : Option Datetime → List ConfidenceImpact
missing_first_activity none = impact provisional "missing_first_activity_date" none [] ∷ []
missing_first_activity (some _) = []

-- `portfolio_value or raw_current_value`: a zero is false.
abbrev pub value_or : Option Decimal → Option Decimal → Option Decimal
value_or none raw = raw
value_or (some v) raw = if eqb_ℤ v (pos 0) then raw else some v

abbrev pub active_cashflows : CapitalInputs → List CapitalCashflow
active_cashflows inputs = keep is_active inputs.cashflows

unfoldable pub totals : CapitalInputs → Totals
totals inputs = add_cashflows inputs.current_value.value_usd no_totals (active_cashflows inputs)

unfoldable pub portfolio_value : CapitalInputs → Option Decimal
portfolio_value inputs = (trusted_current_value inputs.current_value).0

unfoldable pub first_activity : CapitalInputs → Option Datetime
first_activity inputs = first_activity_date (active_cashflows inputs) inputs.activity_dates

-- What an issue's or a decision's amount is compared with.
abbrev pub threshold_value : CapitalInputs → Option Decimal
threshold_value inputs = value_or (portfolio_value inputs) inputs.current_value.value_usd

unfoldable pub all_decision_impacts : CapitalInputs → List ConfidenceImpact
all_decision_impacts inputs =
    let threshold = threshold_value inputs in
    decision_impacts "transfer_link" threshold inputs.transfer_links
    ++ (decision_impacts "import_approval" threshold inputs.import_approvals
        ++ decision_impacts "cost_basis_decision" threshold inputs.cost_basis_decisions)

abbrev pub closing_impacts : CapitalInputs → List ConfidenceImpact
closing_impacts inputs =
    issue_impacts (threshold_value inputs) inputs.issues
    ++ missing_first_activity (first_activity inputs)

-- Every impact, in the order in which the function appends them.
unfoldable pub all_impacts : CapitalInputs → List ConfidenceImpact
all_impacts inputs =
    (totals inputs).impacts
    ++ ((trusted_current_value inputs.current_value).1
        ++ (all_decision_impacts inputs ++ closing_impacts inputs))

abbrev pub current_value_scopes : List String
current_value_scopes = "current_value" ∷ "current_portfolio_value" ∷ []

-- The profit and its percentage of the capital, where they may be shown.
abbrev pub derived_stats : Bool → Option Decimal → Decimal → Option Decimal × Option Ratio
derived_stats true (some value) net =
    let pnl = value -ℤ net in
    (
      some pnl,
      if eqb_ℤ net (pos 0) then none else some (record { num = pnl *ℤ pos 100; den = net }),
    )
derived_stats _ _ net = (none, none)

unfoldable pub calculate_capital_truth : CapitalInputs → CapitalTruthSummary
calculate_capital_truth inputs =
    let deposits = (totals inputs).gross_deposits in
    let withdrawals = (totals inputs).gross_withdrawals in
    let net_capital = deposits -ℤ withdrawals in
    let value = portfolio_value inputs in
    let impacts = all_impacts inputs in
    let first = first_activity inputs in
    let elapsed = elapsed_months first inputs.current_value.as_of in
    let blocked_scopes = blocked_scopes_of impacts in
    let derived_stats_allowed = not (intersects blocked_scopes derived_stat_scopes) in
    let current_value_allowed =
      not (is_none value) && not (intersects blocked_scopes current_value_scopes) in
    let stats = derived_stats (current_value_allowed && derived_stats_allowed) value net_capital in
    record {
      gross_deposits_usd = deposits;
      gross_withdrawals_usd = withdrawals;
      net_capital_at_work_usd = net_capital;
      current_portfolio_value_usd = if current_value_allowed then value else none;
      lifetime_pnl_usd = stats.0;
      return_pct = stats.1;
      first_activity_date = first;
      elapsed_months = elapsed;
      avg_gross_deposit_per_month_usd = monthly_average elapsed deposits;
      avg_gross_withdrawal_per_month_usd = monthly_average elapsed withdrawals;
      avg_net_capital_added_per_month_usd = monthly_average elapsed net_capital;
      confidence_state = max_confidence (map (λ i. i.state) impacts);
      reason_codes = reason_codes_of impacts;
      top_review_task_id = top_review_task_id impacts;
      blocked_metric_scopes = blocked_scopes;
    }
