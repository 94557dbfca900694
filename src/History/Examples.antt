-- ===== src/History/Examples.antt =====
-- Runs: two anchors of a day, and a value that is rebuilt from a position.
use portfolio_tracker_public.Prelude.{
  ◌≡◌, ◌↔◌, refl, [], ◌∷◌, none, some, true, ◌&&◌, string_eq, keep, In, All,
}
use portfolio_tracker_public.Prelude.Int.{pos, leb_ℤ, ◌+ℤ◌, ◌*ℤ◌}
use portfolio_tracker_public.Confidence.{trusted, warning, confidence_eq, max_from, max_confidence}
use portfolio_tracker_public.History.Types.{HistoricalValueAnchor, HistoryInputs}
use portfolio_tracker_public.History.Anchors.{is_same_day, latest_of, exact_anchors_for_date}
use portfolio_tracker_public.History.Rebuild.{
  coverage_for_position, add_priced, add_covered, add_position, add_positions, rebuilt_result,
  reconstruct_from, reconstruct_value,
}
use portfolio_tracker_public.History.Resolve.{resolve_by_anchors, resolve_historical_value}
use portfolio_tracker_public.History.Latest.{exact_anchors_for_date_iff}
use portfolio_tracker_public.History.Steps.{worth, all_positions, is_sound}
use portfolio_tracker_public.History.Complete.{
  value_if, is_complete, resolve_historical_value-rebuilt,
}

abbrev morning : HistoricalValueAnchor
morning = record {
  captured_at = pos 1_000_000;
  value_usd = some (pos 70);
  source = "snapshot";
  confidence_state = trusted;
  reason_codes = [];
}

abbrev evening : HistoricalValueAnchor
evening = record morning { captured_at = pos 2_000_000; value_usd = none }

abbrev inputs : HistoryInputs
inputs = record {
  as_of = pos 3_000_000;
  exact_anchors = [];
  positions = record { symbol = "BTC"; quantity = pos 2; source = "binance" } ∷ [];
  source_coverage =
      record { source = "binance"; start_at = pos 0; end_at = none; confidence_state = warning }
      ∷ [];
  price_lookup = λ symbol as_of. record { price_usd = some (pos 30) };
  transaction_ledger_complete = true;
  cashflow_classifications_complete = true;
  accounting_decisions_complete = true;
}

rebuilt-run :
    ((resolve_historical_value inputs).value_usd ≡ some (pos 60))
    × ((resolve_historical_value inputs).sensitive_metrics_visible ≡ true)
unfolding resolve_historical_value resolve_by_anchors exact_anchors_for_date reconstruct_value
    reconstruct_from add_positions add_position add_covered add_priced coverage_for_position
    rebuilt_result string_eq confidence_eq max_confidence max_from ◌+ℤ◌ ◌*ℤ◌
rebuilt-run = (refl, refl)

-- An anchor without a value is used as the exact one, and its result may be shown.
unvalued_anchor-run :
    ((resolve_historical_value (record inputs { exact_anchors = morning ∷ evening ∷ [] })).value_usd
      ≡ none)
    × ((resolve_historical_value
          (record inputs { exact_anchors = morning ∷ evening ∷ [] })).sensitive_metrics_visible
        ≡ true)
unfolding resolve_historical_value resolve_by_anchors exact_anchors_for_date latest_of string_eq
    confidence_eq max_confidence max_from
unvalued_anchor-run = (refl, refl)

no_anchors : exact_anchors_for_date inputs.as_of inputs.exact_anchors ≡ []
unfolding exact_anchors_for_date
no_anchors = refl

resolve_historical_value-rebuilt_example :
    ((resolve_historical_value inputs).value_usd
      ≡ value_if (is_complete inputs) (worth inputs inputs.positions))
    × ((resolve_historical_value inputs).sensitive_metrics_visible
        ≡ (is_complete inputs && all_positions inputs (is_sound inputs) inputs.positions))
resolve_historical_value-rebuilt_example = resolve_historical_value-rebuilt inputs no_anchors

exact_anchors_for_date_iff_example :
    In evening (exact_anchors_for_date (pos 3_000_000) (morning ∷ evening ∷ [])) ↔ (
      (In evening (morning ∷ evening ∷ []) × (is_same_day (pos 3_000_000) evening ≡ true))
      × All
          (λ (b : HistoricalValueAnchor). leb_ℤ b.captured_at evening.captured_at ≡ true)
          (keep (is_same_day (pos 3_000_000)) (morning ∷ evening ∷ [])))
exact_anchors_for_date_iff_example =
    exact_anchors_for_date_iff (pos 3_000_000) (morning ∷ evening ∷ []) evening
