-- ===== src/History/Rebuild.antt =====
-- `_coverage_for_position` and `_reconstruct_value`. The lookup of prices is a parameter.
use portfolio_tracker_public.Prelude.{
  String, List, [], ◌∷◌, ◌++◌, Option, none, some, Bool, true, false, ◌&&◌, ◌||◌, ◌==◌, string_eq,
  if◌then◌else◌,
}
use portfolio_tracker_public.Prelude.Int.{ℤ, pos, ◌+ℤ◌, ◌*ℤ◌, leb_ℤ}
use portfolio_tracker_public.Prelude.Dict.{fromkeys}
use portfolio_tracker_public.Prelude.Decimal.{Decimal}
use portfolio_tracker_public.Confidence.{
  Confidence, trusted, warning, blocked, confidence_eq, max_confidence,
}
use portfolio_tracker_public.Performance.Types.{HistoricalValueResult}
use portfolio_tracker_public.History.Types.{HistoricalPosition, SourceCoverageWindow, HistoryInputs}

-- `_sensitive_metrics_visible`
abbrev pub are_sensitive_metrics_visible : Confidence → Bool
are_sensitive_metrics_visible state = state == trusted || state == warning

abbrev is_not_after : ℤ → Option ℤ → Bool
is_not_after as_of none = true
is_not_after as_of (some end_at) = leb_ℤ as_of end_at

abbrev pub is_covering : ℤ → String → SourceCoverageWindow → Bool
is_covering as_of source c =
    c.source == source && leb_ℤ c.start_at as_of && is_not_after as_of c.end_at

unfoldable pub coverage_for_position :
    ℤ → String → List SourceCoverageWindow → Option SourceCoverageWindow
coverage_for_position as_of source [] = none
coverage_for_position as_of source (c ∷ cs) =
    let rest = coverage_for_position as_of source cs in
    if is_covering as_of source c then some c else rest

-- The lists and the sum that the loop adds to.
pub record Rebuilt : Type 0 where
  pub rebuilt_reasons : List String
  pub blocking_reason_codes : List String
  pub confidence_states : List Confidence
  pub reconstructed_value : Decimal

abbrev pub block : String → Rebuilt → Rebuilt
block code r = record r {
  blocking_reason_codes = r.blocking_reason_codes ++ (code ∷ []);
  confidence_states = r.confidence_states ++ (blocked ∷ []);
}

abbrev pub block_unless : Bool → String → Rebuilt → Rebuilt
block_unless test code r = if test then r else block code r

abbrev pub start_rebuilt : HistoryInputs → Rebuilt
start_rebuilt i = block_unless i.accounting_decisions_complete "missing_accounting_decision" (
    block_unless i.cashflow_classifications_complete "missing_cashflow_classification" (
      block_unless i.transaction_ledger_complete "missing_source_coverage" (record {
        rebuilt_reasons = [];
        blocking_reason_codes = [];
        confidence_states = [];
        reconstructed_value = pos 0;
      })))

abbrev pub add_coverage : SourceCoverageWindow → Rebuilt → Rebuilt
add_coverage c r = record r {
  confidence_states = r.confidence_states ++ (c.confidence_state ∷ []);
  rebuilt_reasons =
      if c.confidence_state == trusted
      then r.rebuilt_reasons
      else r.rebuilt_reasons ++ ("missing_source_coverage" ∷ []);
}

unfoldable pub add_priced : HistoricalPosition → Option ℤ → Rebuilt → Rebuilt
add_priced p none r = block "missing_historical_price" r
add_priced p (some price) r = record r {
  reconstructed_value = r.reconstructed_value +ℤ p.quantity *ℤ price;
}

unfoldable pub add_covered :
    HistoryInputs → HistoricalPosition → Option SourceCoverageWindow → Rebuilt → Rebuilt
add_covered i p none r = block "missing_source_coverage" r
add_covered i p (some c) r =
    add_priced p (i.price_lookup p.symbol i.as_of).price_usd (add_coverage c r)

unfoldable pub add_position : HistoryInputs → HistoricalPosition → Rebuilt → Rebuilt
add_position i p r = add_covered i p (coverage_for_position i.as_of p.source i.source_coverage) r

unfoldable pub add_positions : HistoryInputs → List HistoricalPosition → Rebuilt → Rebuilt
add_positions i [] r = r
add_positions i (p ∷ ps) r = add_positions i ps (add_position i p r)

abbrev pub unavailable : ℤ → Confidence → List String → HistoricalValueResult
unavailable as_of state codes = record {
  as_of = as_of;
  value_usd = none;
  source = "unavailable";
  confidence_state = state;
  reason_codes = codes;
  sensitive_metrics_visible = false;
}

-- The result of the lists: no value if anything blocks.
unfoldable pub rebuilt_result : ℤ → List String → Rebuilt → HistoricalValueResult
rebuilt_result as_of [] r =
    let state = max_confidence r.confidence_states in
    record {
      as_of = as_of;
      value_usd = some r.reconstructed_value;
      source = "reconstructed";
      confidence_state = state;
      reason_codes = fromkeys ("reconstructed_value" ∷ r.rebuilt_reasons);
      sensitive_metrics_visible = are_sensitive_metrics_visible state;
    }
rebuilt_result as_of (code ∷ codes) r =
    unavailable as_of (max_confidence r.confidence_states)
      (fromkeys (r.rebuilt_reasons ++ (code ∷ codes)))

unfoldable pub reconstruct_from : HistoryInputs → List HistoricalPosition → HistoricalValueResult
reconstruct_from i [] = unavailable i.as_of blocked ("missing_anchor" ∷ [])
reconstruct_from i (p ∷ ps) =
    let r = add_positions i (p ∷ ps) (start_rebuilt i) in
    rebuilt_result i.as_of r.blocking_reason_codes r

unfoldable pub reconstruct_value : HistoryInputs → HistoricalValueResult
reconstruct_value i = reconstruct_from i i.positions
