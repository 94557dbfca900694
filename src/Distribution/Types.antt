-- ===== src/Distribution/Types.antt =====
-- The holdings and the current value that the distribution reads, and the summary that it gives. A
-- percentage is its two terms. A state of confidence is a text that may be missing, as
-- `_confidence_state` reads it.
use portfolio_tracker_public.Prelude.{String, List, [], ◌∷◌, Option, Bool, Eq}
use portfolio_tracker_public.Prelude.Int.{ℤ}
use portfolio_tracker_public.Prelude.Decimal.{Decimal, Ratio}
use portfolio_tracker_public.Confidence.{Confidence}

-- `DistributionAssetType`
pub data AssetType : Type 0 where
  crypto stocks_etfs commodities cash other : AssetType

AssetType-discrete : Discrete AssetType
AssetType-discrete = hlevel

instance unfoldable pub asset_type_eq : Eq AssetType
unfolding AssetType-discrete
asset_type_eq = record { dec = AssetType-discrete }

-- `DISTRIBUTION_BUCKET_ORDER`
abbrev pub bucket_order : List AssetType
bucket_order = crypto ∷ stocks_etfs ∷ commodities ∷ cash ∷ other ∷ []

pub data CashReserveKind : Type 0 where
  stablecoin broker_cash other_tracked_cash : CashReserveKind

pub record DistributionHolding : Type 0 where
  pub symbol : String
  pub asset_type : String
  pub current_value_usd : Option Decimal
  pub confidence_state : Option String
  pub reason_codes : List String
  pub cash_reserve_kind : Option String
  pub institution : Option String

pub record DistributionCurrentValue : Type 0 where
  pub value_usd : Option Decimal
  pub holdings_reconciled : Bool
  pub broker_cash_reconciled : Bool
  pub stablecoin_reserve_reconciled : Bool
  pub position_existence_reconciled : Bool
  pub confidence_state : Option String
  pub reason_codes : List String

-- `_ConfidenceImpact`
pub record Impact : Type 0 where
  pub state : Confidence
  pub reason_code : String

pub record DistributionBucket : Type 0 where
  pub asset_type : AssetType
  pub value_usd : Decimal
  pub percentage : Option Ratio
  pub percentage_state : String
  pub confidence_state : Confidence
  pub reason_codes : List String

pub record CashReserveBreakdown : Type 0 where
  pub stablecoin_usd : Decimal
  pub broker_cash_usd : Decimal
  pub other_tracked_cash_usd : Decimal
  pub total_usd : Decimal
  pub confidence_state : Confidence
  pub reason_codes : List String

-- The tolerance is in the finer unit, 10^-20.
pub record DistributionSummary : Type 0 where
  pub current_value_usd : Option Decimal
  pub total_allocated_usd : Decimal
  pub reconciliation_delta_usd : Option Decimal
  pub reconciliation_tolerance_usd : ℤ
  pub percentages_visible : Bool
  pub asset_type_buckets : List DistributionBucket
  pub cash_reserve : CashReserveBreakdown
  pub confidence_state : Confidence
  pub reason_codes : List String
