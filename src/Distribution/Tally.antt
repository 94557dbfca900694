-- ===== src/Distribution/Tally.antt =====
-- The loop over the holdings of `calculate_asset_type_distribution`.
use portfolio_tracker_public.Prelude.{
  String, ◌<>◌, List, [], ◌∷◌, ◌++◌, Option, none, some, ◌==◌, string_eq, if◌then◌else◌,
}
use portfolio_tracker_public.Prelude.Text.{is_truthy}
use portfolio_tracker_public.Prelude.Int.{pos, ◌+ℤ◌}
use portfolio_tracker_public.Prelude.Decimal.{Decimal}
use portfolio_tracker_public.Confidence.{trusted, blocked, label, confidence_eq}
use portfolio_tracker_public.Distribution.Types.{
  AssetType, cash, asset_type_eq, CashReserveKind, stablecoin, broker_cash, other_tracked_cash,
  DistributionHolding, Impact,
}
use portfolio_tracker_public.Distribution.Classes.{
  distribution_asset_type, cash_reserve_kind_of, confidence_state_of,
}

-- The collections and sums that the loop adds to; a dict over the types is a function.
pub record Tally : Type 0 where
  pub bucket_values : AssetType → Decimal
  pub bucket_impacts : AssetType → List Impact
  pub cash_impacts : List Impact
  pub global_impacts : List Impact
  pub stablecoin_usd : Decimal
  pub broker_cash_usd : Decimal
  pub other_tracked_cash_usd : Decimal

abbrev pub empty_tally : Tally
empty_tally = record {
  bucket_values = λ t. pos 0;
  bucket_impacts = λ t. [];
  cash_impacts = [];
  global_impacts = [];
  stablecoin_usd = pos 0;
  broker_cash_usd = pos 0;
  other_tracked_cash_usd = pos 0;
}

-- `values[key] += amount` and `impacts[key].append(impact)`
abbrev pub add_value : AssetType → Decimal → (AssetType → Decimal) → AssetType → Decimal
add_value key amount values t = if key == t then values t +ℤ amount else values t

abbrev pub append_impact : AssetType → Impact → (AssetType → List Impact) → AssetType → List Impact
append_impact key impact impacts t = if key == t then impacts t ++ (impact ∷ []) else impacts t

unfoldable pub add_impact : AssetType → Impact → Tally → Tally
add_impact asset_type impact t = record t {
  bucket_impacts = append_impact asset_type impact t.bucket_impacts;
  global_impacts = t.global_impacts ++ (impact ∷ []);
  cash_impacts = if asset_type == cash then t.cash_impacts ++ (impact ∷ []) else t.cash_impacts;
}

-- `_first_or_none(reason_codes) or default`
abbrev first_or : List String → String → String
first_or [] default = default
first_or (code ∷ codes) default = if is_truthy code then code else default

abbrev pub holding_impact : DistributionHolding → Impact
holding_impact h =
    let state = confidence_state_of h.confidence_state in
    record {
      state = state;
      reason_code = first_or h.reason_codes ("holding_confidence_" <> label state);
    }

abbrev pub missing_value : Impact
missing_value = record { state = blocked; reason_code = "missing_holding_current_value" }

unfoldable pub add_reserve : CashReserveKind → Decimal → Tally → Tally
add_reserve stablecoin value t = record t { stablecoin_usd = t.stablecoin_usd +ℤ value }
add_reserve broker_cash value t = record t { broker_cash_usd = t.broker_cash_usd +ℤ value }
add_reserve other_tracked_cash value t = record t {
  other_tracked_cash_usd = t.other_tracked_cash_usd +ℤ value;
}

-- What a holding without a current value, or with one, adds.
unfoldable pub add_valued : DistributionHolding → AssetType → Option Decimal → Tally → Tally
add_valued h asset_type none t = add_impact asset_type missing_value t
add_valued h asset_type (some value) t =
    let counted = record t { bucket_values = add_value asset_type value t.bucket_values } in
    let graded =
      if confidence_state_of h.confidence_state == trusted
      then counted
      else add_impact asset_type (holding_impact h) counted in
    if asset_type == cash then add_reserve (cash_reserve_kind_of h) value graded else graded

unfoldable pub add_holding : Tally → DistributionHolding → Tally
add_holding t h = add_valued h (distribution_asset_type h) h.current_value_usd t

unfoldable pub add_holdings : Tally → List DistributionHolding → Tally
add_holdings t [] = t
add_holdings t (h ∷ hs) = add_holdings (add_holding t h) hs
