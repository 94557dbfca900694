-- ===== src/Distribution/Summary.antt =====
-- `calculate_asset_type_distribution` after its loop, with `_current_value_impacts`,
-- `_cash_reserve_impacts`, `_reconciliation_tolerance` and `_percentages_visible`.
use portfolio_tracker_public.Prelude.{
  ◌^◌, String, ◌<>◌, List, [], ◌∷◌, ◌++◌, map, Option, none, some, Bool, false, not, ◌||◌, ◌==◌,
  string_eq, if◌then◌else◌, any, keep, concat_map, is_none,
}
use portfolio_tracker_public.Prelude.Int.{ℤ, pos, ◌+ℤ◌, ◌-ℤ◌, ◌*ℤ◌, abs, max_ℤ, ltb_ℤ, eqb_ℤ}
use portfolio_tracker_public.Prelude.Dict.{fromkeys}
use portfolio_tracker_public.Prelude.Decimal.{Decimal, Ratio, widen, basis_points}
use portfolio_tracker_public.Confidence.{
  Confidence, trusted, provisional, review_required, blocked, label, confidence_eq, max_confidence,
}
use portfolio_tracker_public.Distribution.Types.{
  AssetType, cash, asset_type_eq, bucket_order, DistributionHolding, DistributionCurrentValue,
  Impact, DistributionBucket, DistributionSummary,
}
use portfolio_tracker_public.Distribution.Classes.{confidence_state_of}
use portfolio_tracker_public.Distribution.Tally.{empty_tally, add_holdings}

abbrev pub unless : Bool → Confidence → String → List Impact
unless test state code = if test then [] else record { state = state; reason_code = code } ∷ []

unfoldable pub current_value_impacts : DistributionCurrentValue → List Impact
current_value_impacts v =
    let state = confidence_state_of v.confidence_state in
    unless (not (is_none v.value_usd)) blocked "missing_current_value"
    ++ unless v.holdings_reconciled blocked "holdings_unresolved"
    ++ unless v.broker_cash_reconciled blocked "broker_cash_unresolved"
    ++ unless v.stablecoin_reserve_reconciled blocked "stablecoin_reserve_unresolved"
    ++ unless v.position_existence_reconciled blocked "position_existence_unresolved"
    ++ unless (state == trusted) state ("current_value_confidence_" <> label state)
    ++ map (λ code. record { state = state; reason_code = code }) v.reason_codes

unfoldable pub cash_reserve_impacts : DistributionCurrentValue → List Impact
cash_reserve_impacts v =
    unless v.broker_cash_reconciled blocked "broker_cash_unresolved"
    ++ unless v.stablecoin_reserve_reconciled blocked "stablecoin_reserve_unresolved"

-- In units of 10^-20: the override, or the larger of 0.01 and 0.0001 of the value.
unfoldable pub reconciliation_tolerance : Option Decimal → Option Decimal → ℤ
reconciliation_tolerance value (some override) = widen override
reconciliation_tolerance none none = pos (10 ^ 18)
reconciliation_tolerance (some value) none = max_ℤ (pos (10 ^ 18)) (basis_points (abs value) 1)

abbrev pub is_off : Option Decimal → ℤ → Bool
is_off none tolerance = false
is_off (some delta) tolerance = ltb_ℤ tolerance (widen (abs delta))

abbrev pub is_positive : Option Decimal → Bool
is_positive none = false
is_positive (some value) = ltb_ℤ (pos 0) value

abbrev pub is_untrusted : Impact → Bool
is_untrusted impact = impact.state == review_required || impact.state == blocked

unfoldable pub are_percentages_visible :
    DistributionCurrentValue → Option Decimal → ℤ → List Impact → Bool
are_percentages_visible v delta tolerance impacts =
    if not (is_positive v.value_usd)
    then false
    else if not (confidence_state_of v.confidence_state == trusted)
    then false
    else if is_off delta tolerance
    then false
    else not (any is_untrusted impacts)

abbrev pub reasons_of : List Impact → List String
reasons_of impacts = fromkeys (map (λ (i : Impact). i.reason_code) impacts)

abbrev pub states_of_impacts : List Impact → Confidence
states_of_impacts impacts = max_confidence (map (λ (i : Impact). i.state) impacts)

abbrev pub sum_values : (AssetType → Decimal) → List AssetType → Decimal
sum_values values [] = pos 0
sum_values values (t ∷ ts) = values t +ℤ sum_values values ts

-- `value / current_value * 100`, where the percentages are visible
abbrev pub percentage_of : Bool → Option Decimal → Decimal → Option Ratio
percentage_of visible none value = none
percentage_of visible (some whole) value =
    if visible then some (record { num = value *ℤ pos 100; den = whole }) else none

unfoldable pub bucket_of :
    Bool
    → Option Decimal
    → (AssetType → Decimal)
    → (AssetType → List Impact)
    → AssetType
    → DistributionBucket
bucket_of visible whole values impacts t = record {
  asset_type = t;
  value_usd = values t;
  percentage = percentage_of visible whole (values t);
  percentage_state = if visible then "visible" else "suppressed";
  confidence_state = states_of_impacts (impacts t);
  reason_codes = reasons_of (impacts t);
}

abbrev delta_of : Decimal → Option Decimal → Option Decimal
delta_of total none = none
delta_of total (some value) = some (total -ℤ value)

unfoldable pub calculate_asset_type_distribution :
    DistributionCurrentValue → List DistributionHolding → Option Decimal → DistributionSummary
calculate_asset_type_distribution v holdings override =
    let t = add_holdings empty_tally holdings in
    let cash_impacts = t.cash_impacts ++ cash_reserve_impacts v in
    let bucket_impacts = (λ (a : AssetType).
      if a == cash then t.bucket_impacts a ++ cash_impacts else t.bucket_impacts a) in
    let total = sum_values t.bucket_values bucket_order in
    let tolerance = reconciliation_tolerance v.value_usd override in
    let delta = delta_of total v.value_usd in
    let known =
      t.global_impacts
      ++ current_value_impacts v
      ++ unless (not (is_off delta tolerance)) provisional "distribution_total_mismatch" in
    let visible = are_percentages_visible v delta tolerance known in
    let global_impacts =
      known ++ unless (is_positive v.value_usd) provisional "weak_distribution_denominator" in
    let all_impacts = global_impacts ++ concat_map bucket_impacts bucket_order in
    record {
      current_value_usd = v.value_usd;
      total_allocated_usd = total;
      reconciliation_delta_usd = delta;
      reconciliation_tolerance_usd = tolerance;
      percentages_visible = visible;
      asset_type_buckets =
          map (bucket_of visible v.value_usd t.bucket_values bucket_impacts)
            (keep (λ a. not (eqb_ℤ (t.bucket_values a) (pos 0))) bucket_order);
      cash_reserve = record {
        stablecoin_usd = t.stablecoin_usd;
        broker_cash_usd = t.broker_cash_usd;
        other_tracked_cash_usd = t.other_tracked_cash_usd;
        total_usd = t.stablecoin_usd +ℤ t.broker_cash_usd +ℤ t.other_tracked_cash_usd;
        confidence_state = states_of_impacts cash_impacts;
        reason_codes = reasons_of cash_impacts;
      };
      confidence_state = states_of_impacts all_impacts;
      reason_codes = reasons_of all_impacts;
    }
