-- ===== src/Distribution/Examples.antt =====
-- A run: a coin, an account at a broker and a share without a value.
use portfolio_tracker_public.Prelude.{
  ◌≡◌, refl, [], ◌∷◌, none, some, true, false, not, ◌&&◌, ◌==◌, string_eq, any, map,
}
use portfolio_tracker_public.Prelude.Text.{lower, upper}
use portfolio_tracker_public.Prelude.Int.{◌+ℤ◌, ◌-ℤ◌, ◌*ℤ◌}
use portfolio_tracker_public.Prelude.Decimal.{whole}
use portfolio_tracker_public.Confidence.{trusted, confidence_eq}
use portfolio_tracker_public.Distribution.Types.{
  cash, asset_type_eq, DistributionHolding, DistributionCurrentValue, DistributionBucket,
}
use portfolio_tracker_public.Distribution.Classes.{
  distribution_asset_type, cash_reserve_kind_of, confidence_state_of,
}
use portfolio_tracker_public.Distribution.Tally.{
  add_impact, add_reserve, add_valued, add_holding, add_holdings,
}
use portfolio_tracker_public.Distribution.Summary.{
  current_value_impacts, cash_reserve_impacts, reconciliation_tolerance, are_percentages_visible,
  bucket_of, is_off, is_positive, calculate_asset_type_distribution,
}
use portfolio_tracker_public.Distribution.Totals.{
  known_total, shown_total, calculate_asset_type_distribution-totals,
}
use portfolio_tracker_public.Distribution.Visible.{
  is_reconciled, is_doubtful, percentages_visible_iff,
}

abbrev coin : DistributionHolding
coin = record {
  symbol = "btc";
  asset_type = "Crypto";
  current_value_usd = some (whole 60);
  confidence_state = none;
  reason_codes = [];
  cash_reserve_kind = none;
  institution = none;
}

abbrev account : DistributionHolding
account = record coin {
  symbol = "USD";
  asset_type = "cash";
  current_value_usd = some (whole 40);
  institution = some "XTB";
}

abbrev share : DistributionHolding
share = record coin { symbol = "AAPL"; asset_type = "stock"; current_value_usd = none }

abbrev value_now : DistributionCurrentValue
value_now = record {
  value_usd = some (whole 100);
  holdings_reconciled = true;
  broker_cash_reconciled = true;
  stablecoin_reserve_reconciled = true;
  position_existence_reconciled = true;
  confidence_state = some "trusted";
  reason_codes = [];
}

distribution-run :
    ((calculate_asset_type_distribution value_now (coin ∷ account ∷ []) none).percentages_visible
      ≡ true)
    × (map
          (λ (b : DistributionBucket). b.value_usd)
          (calculate_asset_type_distribution value_now
            (coin ∷ account ∷ [])
            none).asset_type_buckets
        ≡ whole 60 ∷ whole 40 ∷ [])
    × ((calculate_asset_type_distribution value_now
          (coin ∷ account ∷ [])
          none).cash_reserve.broker_cash_usd
        ≡ whole 40)
    × ((calculate_asset_type_distribution value_now
          (coin ∷ account ∷ share ∷ [])
          none).percentages_visible
        ≡ false)
unfolding calculate_asset_type_distribution add_holdings add_holding add_valued add_impact
    add_reserve distribution_asset_type cash_reserve_kind_of confidence_state_of
    current_value_impacts cash_reserve_impacts reconciliation_tolerance are_percentages_visible
    bucket_of string_eq confidence_eq asset_type_eq upper lower ◌+ℤ◌ ◌-ℤ◌ ◌*ℤ◌
distribution-run = (refl, refl, refl, refl)

distribution_totals_example :
    ((calculate_asset_type_distribution value_now
        (coin ∷ account ∷ share ∷ [])
        none).total_allocated_usd
      ≡ known_total (λ a. true) (coin ∷ account ∷ share ∷ []))
    × ((calculate_asset_type_distribution value_now
          (coin ∷ account ∷ share ∷ [])
          none).cash_reserve.total_usd
        ≡ known_total (λ a. a == cash) (coin ∷ account ∷ share ∷ []))
    × (shown_total
          (calculate_asset_type_distribution value_now
            (coin ∷ account ∷ share ∷ [])
            none).asset_type_buckets
        ≡ (calculate_asset_type_distribution value_now
            (coin ∷ account ∷ share ∷ [])
            none).total_allocated_usd)
distribution_totals_example =
    calculate_asset_type_distribution-totals value_now (coin ∷ account ∷ share ∷ []) none

percentages_visible_iff_example :
    (calculate_asset_type_distribution value_now (coin ∷ account ∷ []) none).percentages_visible ≡ (
      is_positive value_now.value_usd
      && confidence_state_of value_now.confidence_state == trusted
      && not (
          is_off
            (calculate_asset_type_distribution value_now
              (coin ∷ account ∷ [])
              none).reconciliation_delta_usd
            (calculate_asset_type_distribution value_now
              (coin ∷ account ∷ [])
              none).reconciliation_tolerance_usd)
      && is_reconciled value_now
      && not (any is_doubtful (coin ∷ account ∷ [])))
percentages_visible_iff_example = percentages_visible_iff value_now (coin ∷ account ∷ []) none
