-- ===== src/History/Resolve.antt =====
-- `resolve_historical_value` and `evaluate_history_metric_visibility`
use portfolio_tracker_public.Prelude.{
  String, List, [], ◌∷◌, none, some, Bool, true, false, not, ◌&&◌, ◌||◌, ◌==◌, string_eq,
  if◌then◌else◌, any, map, concat_map, is_none,
}
use portfolio_tracker_public.Prelude.Int.{eqb_ℤ}
use portfolio_tracker_public.Prelude.Dict.{fromkeys}
use portfolio_tracker_public.Prelude.Decimal.{Decimal}
use portfolio_tracker_public.Confidence.{
  Confidence, trusted, blocked, confidence_eq, max_confidence,
}
use portfolio_tracker_public.Performance.Types.{HistoricalValueResult}
use portfolio_tracker_public.History.Types.{
  HistoricalValueAnchor, HistoryInputs, HistoryMetricVisibility,
}
use portfolio_tracker_public.History.Anchors.{exact_anchors_for_date}
use portfolio_tracker_public.History.Rebuild.{
  are_sensitive_metrics_visible, reconstruct_value, unavailable,
}

-- `{anchor.value_usd for anchor in anchors if anchor.value_usd is not None}`, with repetitions
abbrev pub known_values : List HistoricalValueAnchor → List Decimal
known_values [] = []
known_values (a ∷ others) = elim a.value_usd [
  | none ↦ known_values others
  | some v ↦ v ∷ known_values others
]

-- `len(set(values)) > 1`
abbrev pub has_two : List Decimal → Bool
has_two [] = false
has_two (v ∷ vs) = any (λ w. not (eqb_ℤ w v)) vs

abbrev is_empty : List Decimal → Bool
is_empty [] = true
is_empty (v ∷ vs) = false

abbrev pub is_conflict : List HistoricalValueAnchor → Bool
is_conflict anchors =
    let values = known_values anchors in
    has_two values
    || (any (λ (a : HistoricalValueAnchor). is_none a.value_usd) anchors && not (is_empty values))

-- `anchor.reason_codes or ("exact_anchor",)`
abbrev anchor_reasons : HistoricalValueAnchor → List String
anchor_reasons a = elim a.reason_codes [ [] ↦ "exact_anchor" ∷ [] | code ∷ codes ↦ code ∷ codes ]

unfoldable pub resolve_by_anchors :
    HistoryInputs → List HistoricalValueAnchor → HistoricalValueResult
resolve_by_anchors i [] = reconstruct_value i
resolve_by_anchors i (a ∷ others) =
    let state =
      max_confidence (map (λ (b : HistoricalValueAnchor). b.confidence_state) (a ∷ others)) in
    if is_conflict (a ∷ others)
    then unavailable i.as_of blocked ("anchor_conflict" ∷ [])
    else record {
      as_of = i.as_of;
      value_usd = a.value_usd;
      source = "exact_anchor";
      confidence_state = state;
      reason_codes = fromkeys (concat_map anchor_reasons (a ∷ others));
      sensitive_metrics_visible = are_sensitive_metrics_visible state;
    }

unfoldable pub resolve_historical_value : HistoryInputs → HistoricalValueResult
resolve_historical_value i = resolve_by_anchors i (exact_anchors_for_date i.as_of i.exact_anchors)

unfoldable pub evaluate_history_metric_visibility :
    Confidence → Confidence → List String → HistoryMetricVisibility
evaluate_history_metric_visibility current history codes =
    let state = max_confidence (current ∷ history ∷ []) in
    let reasons =
      if current == trusted && not (history == trusted)
      then "current_value_trusted_history_untrusted" ∷ codes
      else codes in
    let visible = are_sensitive_metrics_visible state in
    record {
      confidence_state = state;
      reason_codes = fromkeys reasons;
      lifetime_pnl_visible = visible;
      period_performance_visible = visible;
    }
