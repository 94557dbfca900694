-- ===== src/Performance/Tiling.antt =====
-- Periods that follow on each other add up.
use mathlib.Core.Path.{ap₂}
use mathlib.Core.Option.{some-injective}
use portfolio_tracker_public.Prelude.{
  ℕ, ◌+◌, ◌*◌, ◌≡◌, refl, ◌∙◌, sym, ap, String, List, [], ◌∷◌, Option, none, some, Bool, true,
  false, ◌&&◌, ◌==◌, string_eq, if◌then◌else◌, arith,
}
use portfolio_tracker_public.Prelude.Decimal.{Decimal}
use portfolio_tracker_public.Prelude.Int.{ℤ, pos, ◌+ℤ◌, ◌-ℤ◌, ◌≤ℤ◌, int_laws, zero-+ℤ, +ℤ-zero}
use portfolio_tracker_public.Performance.Types.{PeriodCashflow, HistoricalValueResult}
use portfolio_tracker_public.Performance.Boundary.{boundary_lookup, boundary_impact}
use portfolio_tracker_public.Performance.Cashflows.{is_inside_period, is_counted}
use portfolio_tracker_public.Performance.Period.{
  Inputs, day_micros, start_of, start_boundary, end_boundary, calculate_period,
}
use portfolio_tracker_public.Performance.Gain.{calculate_period-gain}
use portfolio_tracker_public.Performance.Totals.{
  moved_share, moved_total, calculate_period-cashflows,
}

counted : ℤ → ℤ → PeriodCashflow → Decimal → Decimal
counted start_at end_at c share = if is_counted start_at end_at c then share else pos 0

inside_split :
    (a b c : ℤ) (t : Option ℤ) (active : Bool) (share : Decimal)
    → a ≤ℤ b
    → b ≤ℤ c
    → (if active && is_inside_period a c t then share else pos 0)
      ≡ (if active && is_inside_period a b t then share else pos 0)
        +ℤ (if active && is_inside_period b c t then share else pos 0)
unfolding is_inside_period
inside_split a b c t false share h k = sym (+ℤ-zero _)
inside_split a b c none true share h k = sym (+ℤ-zero _)
inside_split a b c (some t) true share h k =
    ground (arith, +ℤ-zero share, zero-+ℤ share, +ℤ-zero (pos 0))

interchange : (a b c d : ℤ) → a +ℤ b +ℤ (c +ℤ d) ≡ a +ℤ c +ℤ (b +ℤ d)
interchange a b c d = omega int_laws

moved_total_split :
    (kind : String) (a b c : ℤ) (cs : List PeriodCashflow)
    → a ≤ℤ b
    → b ≤ℤ c
    → moved_total kind a c cs ≡ moved_total kind a b cs +ℤ moved_total kind b c cs
moved_total_split kind a b c [] h k = sym (+ℤ-zero _)
moved_total_split kind a b c (x ∷ xs) h k =
    rw
      (
        inside_split a b c x.occurred_at (x.status == "active") (moved_share kind x) h k,
        moved_total_split kind a b c xs h k,
      )
      (interchange _ _ _ _)

abbrev of_days : ℕ → ℤ
of_days days = pos (days * day_micros)

start_of_sum :
    (as_of : ℤ) (d1 d2 : ℕ) → as_of -ℤ of_days (d1 + d2) ≡ as_of -ℤ of_days d2 -ℤ of_days d1
start_of_sum as_of d1 d2 = omega int_laws

before_self : (t : ℤ) (days : ℕ) → t -ℤ of_days days ≤ℤ t
before_self t days = omega int_laws

boundary-value :
    (prefix other : String) (o : Option HistoricalValueResult)
    → (boundary_impact prefix o).value_usd ≡ (boundary_impact other o).value_usd
unfolding boundary_impact
boundary-value prefix other none = refl
boundary-value prefix other (some b) = refl

telescope :
    (x y z d d' w w' : ℤ)
    → z -ℤ x -ℤ (d +ℤ d') +ℤ (w +ℤ w') ≡ y -ℤ x -ℤ d +ℤ w +ℤ (z -ℤ y -ℤ d' +ℤ w')
telescope x y z d d' w w' = omega int_laws

module _ (inputs : Inputs) (as_of : ℤ) (d1 d2 : ℕ) where
  abbrev earlier_end : ℤ
  earlier_end = start_of inputs as_of d2

  same_start :
      (calculate_period inputs as_of (d1 + d2)).starting_value_usd
      ≡ (calculate_period inputs earlier_end d1).starting_value_usd
  unfolding calculate_period start_boundary
  same_start =
      ap
        (λ t.
          (boundary_impact "start_boundary" (boundary_lookup inputs.boundary_values t)).value_usd)
        (start_of_sum as_of d1 d2)

  same_middle :
      (calculate_period inputs earlier_end d1).ending_value_usd
      ≡ (calculate_period inputs as_of d2).starting_value_usd
  unfolding calculate_period start_boundary end_boundary
  same_middle =
      boundary-value "end_boundary" "start_boundary"
        (boundary_lookup inputs.boundary_values earlier_end)

  same_end :
      (calculate_period inputs as_of (d1 + d2)).ending_value_usd
      ≡ (calculate_period inputs as_of d2).ending_value_usd
  unfolding calculate_period
  same_end = refl

  moved_total_tiles :
      (kind : String)
      → moved_total kind (start_of inputs as_of (d1 + d2)) as_of inputs.cashflows
        ≡ moved_total kind (start_of inputs earlier_end d1) earlier_end inputs.cashflows
          +ℤ moved_total kind earlier_end as_of inputs.cashflows
  moved_total_tiles kind = rw (start_of_sum as_of d1 d2) (
      moved_total_split kind (start_of inputs earlier_end d1) earlier_end as_of inputs.cashflows
        (before_self earlier_end d1) (before_self as_of d2))

  -- The deposits, and the withdrawals, of the last `d1 + d2` days are those of the last `d2` days and
  -- of the `d1` days before together: no cashflow is counted twice, and none is left out.
  pub calculate_period-cashflows-tile :
      let long = calculate_period inputs as_of (d1 + d2) in
      let earlier = calculate_period inputs (start_of inputs as_of d2) d1 in
      let later = calculate_period inputs as_of d2 in
      (long.deposits_usd ≡ earlier.deposits_usd +ℤ later.deposits_usd)
      × (long.withdrawals_usd ≡ earlier.withdrawals_usd +ℤ later.withdrawals_usd)
  unfolding calculate_period
  calculate_period-cashflows-tile =
      let (d, w) = calculate_period-cashflows inputs as_of (d1 + d2) in
      let (de, we) = calculate_period-cashflows inputs earlier_end d1 in
      let (dl, wl) = calculate_period-cashflows inputs as_of d2 in
      (
        d ∙ moved_total_tiles "external_deposit" ∙ sym (ap₂ ◌+ℤ◌ de dl),
        w ∙ moved_total_tiles "external_withdrawal" ∙ sym (ap₂ ◌+ℤ◌ we wl),
      )

  -- Where the last `d1 + d2` days, the last `d2` days and the `d1` days before all have a gain, the
  -- gain of the whole is the sum of the gains of its parts.
  pub calculate_period-gain-tile :
      (g e l : Decimal)
      → (calculate_period inputs as_of (d1 + d2)).investment_gain_usd ≡ some g
      → (calculate_period inputs (start_of inputs as_of d2) d1).investment_gain_usd ≡ some e
      → (calculate_period inputs as_of d2).investment_gain_usd ≡ some l
      → g ≡ e +ℤ l
  calculate_period-gain-tile g e l long earlier later =
      let (x, z, sx, sz, _, k) = ((calculate_period-gain inputs as_of (d1 + d2)).0 g).0 long in
      let (x', y, sx', sy, _, k') = ((calculate_period-gain inputs earlier_end d1).0 e).0 earlier in
      let (y', z', sy', sz', _, k'') = ((calculate_period-gain inputs as_of d2).0 l).0 later in
      let (d, w) = calculate_period-cashflows-tile in
      let xs = some-injective x x' (sym sx ∙ same_start ∙ sx') in
      let ys = some-injective y y' (sym sy ∙ same_middle ∙ sy') in
      let zs = some-injective z z' (sym sz ∙ same_end ∙ sz') in
      cc (
        telescope x y z (calculate_period inputs earlier_end d1).deposits_usd
            (calculate_period inputs as_of d2).deposits_usd
            (calculate_period inputs earlier_end d1).withdrawals_usd
            (calculate_period inputs as_of d2).withdrawals_usd,
        xs,
        ys,
        zs,
        d,
        w,
        k,
        k',
        k'',
      )
