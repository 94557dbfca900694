-- ===== src/Distribution/Visible.antt =====
-- When the percentages are visible.
use portfolio_tracker_public.Prelude.{
  ◌≡◌, refl, sym, ◌∙◌, ap, String, List, [], ◌∷◌, ◌++◌, map, Option, none, some, Bool, true, false,
  not, ◌&&◌, ◌||◌, ◌==◌, inl, inr, Bool-cases, eq_of_==, if◌then◌else◌, any, any-append, is_none,
}
use portfolio_tracker_public.Prelude.Int.{ℤ}
use portfolio_tracker_public.Prelude.Decimal.{Decimal}
use portfolio_tracker_public.Confidence.{
  Confidence, trusted, provisional, review_required, blocked, confidence_eq,
}
use portfolio_tracker_public.Distribution.Types.{
  AssetType, cash, asset_type_eq, CashReserveKind, stablecoin, broker_cash, other_tracked_cash,
  Impact, DistributionHolding, DistributionCurrentValue,
}
use portfolio_tracker_public.Distribution.Classes.{
  distribution_asset_type, cash_reserve_kind_of, confidence_state_of,
}
use portfolio_tracker_public.Distribution.Tally.{
  Tally, empty_tally, add_value, add_impact, add_reserve, add_valued, add_holding, add_holdings,
  holding_impact, missing_value,
}
use portfolio_tracker_public.Distribution.Summary.{
  current_value_impacts, reconciliation_tolerance, is_off, is_positive, is_untrusted,
  are_percentages_visible, calculate_asset_type_distribution, unless,
}

abbrev pub is_untrusted_state : Confidence → Bool
is_untrusted_state state = state == review_required || state == blocked

-- A holding without a value, or under review or blocked.
abbrev pub is_doubtful : DistributionHolding → Bool
is_doubtful h =
    is_none h.current_value_usd || is_untrusted_state (confidence_state_of h.confidence_state)

abbrev doubt_of : DistributionHolding → Option Decimal → Bool
doubt_of h o = is_none o || is_untrusted_state (confidence_state_of h.confidence_state)

add_reserve-global_impacts :
    (is_cash : Bool) (kind : CashReserveKind) (value : Decimal) (t : Tally)
    → (if is_cash then add_reserve kind value t else t).global_impacts ≡ t.global_impacts
unfolding add_reserve
add_reserve-global_impacts false kind value t = refl
add_reserve-global_impacts true stablecoin value t = refl
add_reserve-global_impacts true broker_cash value t = refl
add_reserve-global_impacts true other_tracked_cash value t = refl

or_false : (u : Bool) → (u || false) ≡ u
or_false true = refl
or_false false = refl

or_assoc : (a b c : Bool) → ((a || b) || c) ≡ (a || (b || c))
or_assoc true b c = refl
or_assoc false b c = refl

trusted_doubt :
    (x : Bool) (state : Confidence) → state ≡ trusted → x ≡ (x || is_untrusted_state state)
unfolding confidence_eq
trusted_doubt x state e = rw e (sym (or_false x))

add_valued-doubt :
    (h : DistributionHolding) (key : AssetType) (o : Option Decimal) (t : Tally)
    → any is_untrusted (add_valued h key o t).global_impacts
      ≡ (any is_untrusted t.global_impacts || doubt_of h o)
unfolding add_valued add_impact confidence_eq
add_valued-doubt h key none t = any-append is_untrusted t.global_impacts (missing_value ∷ [])
add_valued-doubt h key (some value) t =
    let kind = cash_reserve_kind_of h in
    let counted = record t { bucket_values = add_value key value t.bucket_values } in
    elim (Bool-cases (confidence_state_of h.confidence_state == trusted)) [
      | inl e ↦ rw e (
          ap (any is_untrusted) (add_reserve-global_impacts (key == cash) kind value counted)
          ∙ trusted_doubt (any is_untrusted t.global_impacts)
              (confidence_state_of h.confidence_state)
              (eq_of_== (confidence_state_of h.confidence_state) trusted e))
      | inr e ↦ rw e (
          ap (any is_untrusted) (
            add_reserve-global_impacts (key == cash) kind value
              (add_impact key (holding_impact h) counted))
          ∙ any-append is_untrusted t.global_impacts (holding_impact h ∷ [])
          ∙ ap (λ u. any is_untrusted t.global_impacts || u)
              (or_false (is_untrusted (holding_impact h))))
    ]

add_holdings-doubt :
    (t : Tally) (hs : List DistributionHolding)
    → any is_untrusted (add_holdings t hs).global_impacts
      ≡ (any is_untrusted t.global_impacts || any is_doubtful hs)
unfolding add_holdings add_holding
add_holdings-doubt t [] = sym (or_false (any is_untrusted t.global_impacts))
add_holdings-doubt t (h ∷ hs) =
    add_holdings-doubt (add_holding t h) hs
    ∙ ap (λ u. u || any is_doubtful hs)
        (add_valued-doubt h (distribution_asset_type h) h.current_value_usd t)
    ∙ or_assoc (any is_untrusted t.global_impacts) (is_doubtful h) (any is_doubtful hs)

trusted_codes :
    (codes : List String)
    → any is_untrusted (map (λ code. record { state = trusted; reason_code = code }) codes) ≡ false
unfolding confidence_eq
trusted_codes [] = refl
trusted_codes (c ∷ cs) = trusted_codes cs

-- The kinds of evidence are all reconciled.
abbrev pub is_reconciled : DistributionCurrentValue → Bool
is_reconciled v =
    v.holdings_reconciled && v.broker_cash_reconciled && v.stablecoin_reserve_reconciled
    && v.position_existence_reconciled

coverage-untrusted :
    (a b c d : Bool) (rest : List Impact)
    → any is_untrusted rest ≡ false
    → any is_untrusted (
        unless a blocked "holdings_unresolved"
        ++ unless b blocked "broker_cash_unresolved"
        ++ unless c blocked "stablecoin_reserve_unresolved"
        ++ unless d blocked "position_existence_unresolved"
        ++ []
        ++ rest)
      ≡ not (a && b && c && d)
unfolding confidence_eq
coverage-untrusted false b c d rest h = refl
coverage-untrusted true false c d rest h = refl
coverage-untrusted true true false d rest h = refl
coverage-untrusted true true true false rest h = refl
coverage-untrusted true true true true rest h = h

current_value_impacts-untrusted :
    (v : DistributionCurrentValue) (value : Decimal)
    → v.value_usd ≡ some value
    → confidence_state_of v.confidence_state ≡ trusted
    → any is_untrusted (current_value_impacts v) ≡ not (is_reconciled v)
unfolding current_value_impacts confidence_eq
current_value_impacts-untrusted v value known state =
    rw (known, state)
      (coverage-untrusted v.holdings_reconciled v.broker_cash_reconciled
        v.stablecoin_reserve_reconciled v.position_existence_reconciled
        (map (λ code. record { state = trusted; reason_code = code }) v.reason_codes)
        (trusted_codes v.reason_codes))

known_impacts-untrusted :
    (found current : List Impact) (off doubtful missing : Bool)
    → off ≡ false
    → any is_untrusted found ≡ doubtful
    → any is_untrusted current ≡ missing
    → any is_untrusted
        (found ++ current ++ unless (not off) provisional "distribution_total_mismatch")
      ≡ (doubtful || missing)
known_impacts-untrusted found current off doubtful missing close h c = rw close (
    any-append is_untrusted (found ++ current) []
    ∙ or_false (any is_untrusted (found ++ current))
    ∙ any-append is_untrusted found current
    ∙ ap (λ u. u || any is_untrusted current) h
    ∙ ap (λ u. doubtful || u) c)

positive_known : (o : Option Decimal) → is_positive o ≡ true → (value : Decimal) × (o ≡ some value)
positive_known none h = cc h
positive_known (some value) h = (value, refl)

are_percentages_visible_lem :
    (v : DistributionCurrentValue) (delta : Option Decimal) (tolerance : ℤ) (impacts : List Impact)
    (doubtful : Bool)
    → (is_positive v.value_usd ≡ true
        → confidence_state_of v.confidence_state ≡ trusted
        → is_off delta tolerance ≡ false
        → any is_untrusted impacts ≡ (doubtful || not (is_reconciled v)))
    → are_percentages_visible v delta tolerance impacts ≡ (
        is_positive v.value_usd
        && confidence_state_of v.confidence_state == trusted
        && not (is_off delta tolerance)
        && is_reconciled v
        && not doubtful)
unfolding are_percentages_visible
are_percentages_visible_lem v delta tolerance impacts doubtful h =
    let state = confidence_state_of v.confidence_state in
    elim (Bool-cases (is_positive v.value_usd)) [
      | inr e ↦ rw e refl
      | inl e ↦ elim (Bool-cases (state == trusted)) [
        | inr f ↦ rw (e, f) refl
        | inl f ↦ elim (Bool-cases (is_off delta tolerance)) [
          | inl g ↦ rw (e, f, g) refl
          | inr g ↦
              let all = h e (eq_of_== state trusted f) g in
              rw (e, f, g, all) (not_or (is_reconciled v) doubtful)
        ]
      ]
    ]
  where
    not_or : (r d : Bool) → not (d || not r) ≡ (r && not d)
    not_or true true = refl
    not_or true false = refl
    not_or false true = refl
    not_or false false = refl

-- The percentages are visible exactly when the current value is known and above zero, its state is
-- trusted, the total differs from it by no more than the tolerance, the four kinds of evidence are
-- reconciled, and every holding has a value and is neither under review nor blocked.
pub percentages_visible_iff :
    (v : DistributionCurrentValue) (hs : List DistributionHolding) (override : Option Decimal)
    → (calculate_asset_type_distribution v hs override).percentages_visible ≡ (
        is_positive v.value_usd
        && confidence_state_of v.confidence_state == trusted
        && not (
            is_off
              (calculate_asset_type_distribution v hs override).reconciliation_delta_usd
              (calculate_asset_type_distribution v hs override).reconciliation_tolerance_usd)
        && is_reconciled v
        && not (any is_doubtful hs))
unfolding calculate_asset_type_distribution
percentages_visible_iff v hs override =
    are_percentages_visible_lem v _ (reconciliation_tolerance v.value_usd override) _
      (any is_doubtful hs)
      (λ positive state close.
        let (value, known) = positive_known v.value_usd positive in
        known_impacts-untrusted _ (current_value_impacts v) _ (any is_doubtful hs)
          (not (is_reconciled v)) close (add_holdings-doubt empty_tally hs)
          (current_value_impacts-untrusted v value known state))
