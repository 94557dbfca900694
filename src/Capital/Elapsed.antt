-- ===== src/Capital/Elapsed.antt =====
-- The months since the first activity, and the averages over them.
use portfolio_tracker_public.Prelude.{◌+◌, ◌≤◌, ◌<◌, ◌≡◌, ◌↔◌, ◌⊎◌, refl, Option, none, some, arith}
use portfolio_tracker_public.Prelude.Decimal.{Decimal, Ratio}
use portfolio_tracker_public.Prelude.Int.{pos, ◌*ℤ◌, ◌≤ℤ◌, ◌<ℤ◌}
use portfolio_tracker_public.Capital.Calendar.{
  Datetime, instant, before_eq, days_between, day_micros,
}
use portfolio_tracker_public.Capital.Types.{CapitalInputs}
use portfolio_tracker_public.Capital.Summary.{
  whole_months, elapsed_between, elapsed_months, monthly_average, first_activity,
  calculate_capital_truth,
}

-- No elapsed time is reported exactly when the value's date is not after the first activity, or when
-- it is less than a day after it with no whole month between the calendar dates.
pub elapsed_between-eq-none :
    (first as_of : Datetime)
    → (elapsed_between first as_of ≡ none) ↔ (
        (instant as_of ≤ instant first)
        ⊎ ((whole_months first as_of ≤ℤ pos 0) × (instant as_of < instant first + day_micros)))
unfolding elapsed_between before_eq days_between
elapsed_between-eq-none first as_of = ground arith

elapsed_between_pos :
    (first as_of : Datetime) (e : Ratio)
    → elapsed_between first as_of ≡ some e
    → (pos 0 <ℤ e.num) × (pos 0 <ℤ e.den)
unfolding elapsed_between
elapsed_between_pos first as_of e h = ground arith

elapsed_months_pos :
    (first as_of : Option Datetime) (e : Ratio)
    → elapsed_months first as_of ≡ some e
    → (pos 0 <ℤ e.num) × (pos 0 <ℤ e.den)
unfolding elapsed_months
elapsed_months_pos none as_of e h = cc
elapsed_months_pos (some first) none e h = cc
elapsed_months_pos (some first) (some as_of) e h = elapsed_between_pos first as_of e h

monthly_average-some :
    (e : Ratio) (total : Decimal)
    → pos 0 <ℤ e.num
    → monthly_average (some e) total ≡ some (record { num = total *ℤ e.den; den = e.num })
unfolding monthly_average
monthly_average-some e total h = ground arith

no_average : (o : Option Ratio) (total : Decimal) → o ≡ none → monthly_average o total ≡ none
unfolding monthly_average
no_average none total h = refl
no_average (some e) total h = cc

average_of :
    (o : Option Ratio) (e : Ratio) (total : Decimal)
    → o ≡ some e
    → pos 0 <ℤ e.num
    → monthly_average o total ≡ some (record { num = total *ℤ e.den; den = e.num })
average_of o e total known n = rw known (monthly_average-some e total n)

-- The elapsed months of a summary are a positive number over a positive number, so that no average
-- divides by zero; the three averages are shown exactly when the elapsed months are, and each is the
-- total over them.
pub monthly_averages_defined :
    (inputs : CapitalInputs)
    → let summary = calculate_capital_truth inputs in
      let per_month = λ (e : Ratio) (total : Decimal).
        some (let r : Ratio = record { num = total *ℤ e.den; den = e.num } in r) in
      (summary.elapsed_months ≡ none
        → (summary.avg_gross_deposit_per_month_usd ≡ none)
          × (summary.avg_gross_withdrawal_per_month_usd ≡ none)
          × (summary.avg_net_capital_added_per_month_usd ≡ none))
      × ((e : Ratio)
          → summary.elapsed_months ≡ some e
          → (pos 0 <ℤ e.num)
            × (pos 0 <ℤ e.den)
            × (summary.avg_gross_deposit_per_month_usd ≡ per_month e summary.gross_deposits_usd)
            × (summary.avg_gross_withdrawal_per_month_usd
                ≡ per_month e summary.gross_withdrawals_usd)
            × (summary.avg_net_capital_added_per_month_usd
                ≡ per_month e summary.net_capital_at_work_usd))
unfolding calculate_capital_truth
monthly_averages_defined inputs =
    let elapsed = elapsed_months (first_activity inputs) inputs.current_value.as_of in
    (
      λ absent.
          let none_left = λ (total : Decimal). no_average elapsed total absent in
          (none_left _, none_left _, none_left _),
      λ e known.
          let (n, d) = elapsed_months_pos (first_activity inputs) _ e known in
          let each = λ (total : Decimal). average_of elapsed e total known n in
          (n, d, each _, each _, each _),
    )
