-- ===== src/Distribution/Classes.antt =====
-- What a holding counts as: `_distribution_asset_type`, `_cash_reserve_kind` and `_confidence_state`.
use portfolio_tracker_public.Prelude.{
  String, List, [], ◌∷◌, Option, not, ◌&&◌, ◌||◌, ◌==◌, string_eq, contains, if◌then◌else◌, get_or,
  is_none,
}
use portfolio_tracker_public.Prelude.Text.{lower, upper}
use portfolio_tracker_public.Confidence.{
  Confidence, trusted, warning, provisional, review_required, blocked,
}
use portfolio_tracker_public.Distribution.Types.{
  AssetType, crypto, stocks_etfs, commodities, cash, other, CashReserveKind, stablecoin,
  broker_cash, other_tracked_cash, DistributionHolding,
}

abbrev stablecoin_symbols : List String
stablecoin_symbols = "USDT" ∷ "USDC" ∷ "BUSD" ∷ "FDUSD" ∷ "DAI" ∷ []

abbrev cash_symbols : List String
cash_symbols =
    "USD" ∷ "EUR" ∷ "GBP" ∷ "CHF" ∷ "JPY" ∷ "USDT" ∷ "USDC" ∷ "BUSD" ∷ "FDUSD" ∷ "DAI" ∷ []

abbrev stock_etf_types : List String
stock_etf_types = "stock" ∷ "stocks" ∷ "equity" ∷ "equities" ∷ "etf" ∷ "fund" ∷ []

abbrev commodity_types : List String
commodity_types = "commodity" ∷ "commodities" ∷ "metal" ∷ "precious_metal" ∷ []

abbrev cash_types : List String
cash_types = "cash" ∷ "fiat" ∷ "currency" ∷ "stablecoin" ∷ "money_market" ∷ []

unfoldable pub distribution_asset_type : DistributionHolding → AssetType
distribution_asset_type h =
    let symbol = upper h.symbol in
    let asset_type = lower h.asset_type in
    if contains stablecoin_symbols symbol
    then cash
    else if contains cash_types asset_type
        && (contains cash_symbols symbol || not (is_none h.cash_reserve_kind))
    then cash
    else if asset_type == "crypto"
    then crypto
    else if contains stock_etf_types asset_type
    then stocks_etfs
    else if contains commodity_types asset_type
    then commodities
    else other

unfoldable pub cash_reserve_kind_of : DistributionHolding → CashReserveKind
cash_reserve_kind_of h =
    let symbol = upper h.symbol in
    let explicit_kind = lower (get_or h.cash_reserve_kind "") in
    let institution = lower (get_or h.institution "") in
    if contains ("stablecoin" ∷ "stablecoins" ∷ []) explicit_kind
    then stablecoin
    else if contains ("broker_cash" ∷ "broker" ∷ "brokerage_cash" ∷ []) explicit_kind
    then broker_cash
    else if contains ("other_tracked_cash" ∷ "tracked_cash" ∷ "other_cash" ∷ []) explicit_kind
    then other_tracked_cash
    else if contains stablecoin_symbols symbol || lower h.asset_type == "stablecoin"
    then stablecoin
    else if contains cash_symbols symbol
        && contains ("xtb" ∷ "broker" ∷ "brokerage" ∷ []) institution
    then broker_cash
    else other_tracked_cash

-- `_confidence_state`
unfoldable pub confidence_state_of : Option String → Confidence
confidence_state_of value =
    let state = get_or value "trusted" in
    if state == "trusted" || state == ""
    then trusted
    else if state == "warning"
    then warning
    else if state == "provisional"
    then provisional
    else if state == "review_required"
    then review_required
    else if state == "blocked"
    then blocked
    else provisional
