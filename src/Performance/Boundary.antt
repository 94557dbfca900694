-- ===== src/Performance/Boundary.antt =====
-- The values at the two ends of a period.
use portfolio_tracker_public.Prelude.{
  String, ◌<>◌, List, [], ◌∷◌, map, Option, none, some, not, ◌||◌, ◌==◌, string_eq, contains, keep,
  is_none, if◌then◌else◌,
}
use portfolio_tracker_public.Prelude.Int.{ℤ, eqb_ℤ, abs, max_ℤ}
use portfolio_tracker_public.Prelude.Decimal.{Decimal}
use portfolio_tracker_public.Confidence.{Confidence, provisional, max_confidence, label}
use portfolio_tracker_public.Capital.Impacts.{is_trusted}
use portfolio_tracker_public.Performance.Types.{HistoricalValueResult, BoundaryImpact}

-- `_boundary_lookup(values).get(at)`: of several values at one time, the last.
unfoldable pub boundary_lookup : List HistoricalValueResult → ℤ → Option HistoricalValueResult
boundary_lookup [] at = none
boundary_lookup (boundary ∷ boundaries) at = elim (boundary_lookup boundaries at) [
  | some later ↦ some later
  | none ↦ if eqb_ℤ boundary.as_of at then some boundary else none
]

unfoldable pub effective_boundary_confidence : HistoricalValueResult → Confidence
effective_boundary_confidence boundary =
    if not (is_none boundary.value_usd)
    then boundary.confidence_state
    else if contains boundary.reason_codes "missing_anchor"
    then provisional
    else max_confidence (provisional ∷ boundary.confidence_state ∷ [])

abbrev or_confidence : String → Confidence → List String → List String
or_confidence prefix state [] = (prefix <> ("_confidence_" <> label state)) ∷ []
or_confidence prefix state (code ∷ codes) = code ∷ codes

unfoldable pub boundary_reasons : String → HistoricalValueResult → List String
boundary_reasons prefix boundary =
    let codes =
      map (λ code. prefix <> ("_" <> code))
        (keep (λ code. not (code == "exact_anchor")) boundary.reason_codes) in
    if not (is_trusted (effective_boundary_confidence boundary)) || is_none boundary.value_usd
    then or_confidence prefix boundary.confidence_state codes
    else []

-- `_boundary_impact`
unfoldable pub boundary_impact : String → Option HistoricalValueResult → BoundaryImpact
boundary_impact prefix none = record {
  value_usd = none;
  confidence_state = provisional;
  effective_confidence_state = provisional;
  reason_codes = (prefix <> "_missing_anchor") ∷ [];
}
boundary_impact prefix (some boundary) = record {
  value_usd = boundary.value_usd;
  confidence_state = boundary.confidence_state;
  effective_confidence_state = effective_boundary_confidence boundary;
  reason_codes = boundary_reasons prefix boundary;
}

-- `_period_reference_value`
unfoldable pub period_reference_value : Option Decimal → Option Decimal → Option Decimal
period_reference_value none none = none
period_reference_value none (some e) = some (abs e)
period_reference_value (some s) none = some (abs s)
period_reference_value (some s) (some e) = some (max_ℤ (abs s) (abs e))
