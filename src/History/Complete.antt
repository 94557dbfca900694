-- ===== src/History/Complete.antt =====
-- When a value is rebuilt, and what it is.
use portfolio_tracker_public.Prelude.{
  and_parts, ◌≡◌, refl, sym, ◌∙◌, ap, String, List, [], ◌∷◌, Option, none, some, Bool, true, false,
  ◌&&◌, string_eq, inl, inr, Bool-cases, if◌then◌else◌, arith,
}
use portfolio_tracker_public.Prelude.Int.{ℤ, pos, ◌+ℤ◌, zero-+ℤ}
use portfolio_tracker_public.Prelude.Decimal.{Decimal}
use portfolio_tracker_public.Confidence.{confidence_eq, max_from, max_confidence}
use portfolio_tracker_public.History.Types.{HistoricalPosition, HistoryInputs}
use portfolio_tracker_public.History.Anchors.{exact_anchors_for_date}
use portfolio_tracker_public.History.Rebuild.{
  are_sensitive_metrics_visible, Rebuilt, add_positions, start_rebuilt, rebuilt_result,
  reconstruct_from, reconstruct_value,
}
use portfolio_tracker_public.History.Resolve.{resolve_by_anchors, resolve_historical_value}
use portfolio_tracker_public.History.Steps.{
  is_valued, is_sound, all_positions, worth, is_empty_list, add_positions-IsStep,
}

-- The records that a value is rebuilt from are complete.
abbrev pub has_records : HistoryInputs → Bool
has_records i =
    i.transaction_ledger_complete && i.cashflow_classifications_complete
    && i.accounting_decisions_complete

abbrev pub has_positions : List HistoricalPosition → Bool
has_positions [] = false
has_positions (p ∷ ps) = true

abbrev pub is_complete : HistoryInputs → Bool
is_complete i =
    has_positions i.positions && has_records i && all_positions i (is_valued i) i.positions

start_rebuilt-blocks :
    (i : HistoryInputs) → is_empty_list (start_rebuilt i).blocking_reason_codes ≡ has_records i
start_rebuilt-blocks i = ground arith

start_rebuilt-grades :
    (i : HistoryInputs)
    → has_records i ≡ true
    → ((start_rebuilt i).reconstructed_value ≡ pos 0)
      × (are_sensitive_metrics_visible (max_confidence (start_rebuilt i).confidence_states) ≡ true)
unfolding max_confidence max_from confidence_eq
start_rebuilt-grades i h = elim (Bool-cases i.transaction_ledger_complete) [
  | inr e ↦ let bad : false ≡ true = rw e at h in absurd (cc bad)
  | inl e ↦ elim (Bool-cases i.cashflow_classifications_complete) [
    | inr f ↦ let bad : false ≡ true = rw (e, f) at h in absurd (cc bad)
    | inl f ↦ elim (Bool-cases i.accounting_decisions_complete) [
      | inr g ↦ let bad : false ≡ true = rw (e, f, g) at h in absurd (cc bad)
      | inl g ↦ rw (e, f, g) (refl, refl)
    ]
  ]
]

abbrev pub value_if : Bool → Decimal → Option Decimal
value_if test value = if test then some value else none

rebuilt_result-value :
    (as_of : ℤ) (codes : List String) (r : Rebuilt)
    → ((rebuilt_result as_of codes r).value_usd
        ≡ value_if (is_empty_list codes) r.reconstructed_value)
      × ((rebuilt_result as_of codes r).sensitive_metrics_visible ≡ (
          is_empty_list codes
          && are_sensitive_metrics_visible (max_confidence r.confidence_states)))
unfolding rebuilt_result
rebuilt_result-value as_of [] r = (refl, refl)
rebuilt_result-value as_of (c ∷ cs) r = (refl, refl)

reconstruct_from_complete :
    (i : HistoryInputs) (ps : List HistoricalPosition)
    → ((reconstruct_from i ps).value_usd
        ≡ value_if
            (has_positions ps && has_records i && all_positions i (is_valued i) ps)
            (worth i ps))
      × ((reconstruct_from i ps).sensitive_metrics_visible ≡ (
          (has_positions ps && has_records i && all_positions i (is_valued i) ps)
          && all_positions i (is_sound i) ps))
unfolding reconstruct_from
reconstruct_from_complete i [] = (refl, refl)
reconstruct_from_complete i (p ∷ ps) =
    let r = start_rebuilt i in
    let s = add_positions-IsStep i (p ∷ ps) r in
    let after = add_positions i (p ∷ ps) r in
    let (value, visible) = rebuilt_result-value i.as_of after.blocking_reason_codes after in
    let all = all_positions i (is_valued i) (p ∷ ps) in
    let blocks = s.blocks ∙ ap (λ b. b && all) (start_rebuilt-blocks i) in
    elim (Bool-cases (has_records i && all)) [
      | inr e ↦
          let gone = blocks ∙ e in
          (
            value
                ∙ ap (λ b. value_if b after.reconstructed_value) gone
                ∙ sym (ap (λ b. value_if b (worth i (p ∷ ps))) e),
            visible
                ∙ ap
                    (λ b.
                      b && are_sensitive_metrics_visible (max_confidence after.confidence_states))
                    gone
                ∙ sym (ap (λ b. b && all_positions i (is_sound i) (p ∷ ps)) e),
          )
      | inl e ↦
          let gone = blocks ∙ e in
          let (records, valued) = and_parts (has_records i) all e in
          let (start, seen) = start_rebuilt-grades i records in
          let whole =
            s.counts valued ∙ ap (λ x. x +ℤ worth i (p ∷ ps)) start ∙ zero-+ℤ (worth i (p ∷ ps)) in
          let graded =
            s.grades valued ∙ ap (λ b. b && all_positions i (is_sound i) (p ∷ ps)) seen in
          (
            value
                ∙ ap (λ b. value_if b after.reconstructed_value) gone
                ∙ ap some whole
                ∙ sym (ap (λ b. value_if b (worth i (p ∷ ps))) e),
            visible
                ∙ ap
                    (λ b.
                      b && are_sensitive_metrics_visible (max_confidence after.confidence_states))
                    gone
                ∙ graded
                ∙ sym (ap (λ b. b && all_positions i (is_sound i) (p ∷ ps)) e),
          )
    ]

-- Where no anchor is used, the value is there exactly if there are positions, the three kinds of
-- records are complete, and every position has a source that is covered and a price; it is then the
-- sum of the quantities by their prices. It may be shown exactly if, besides, the coverage of every
-- position is trusted or a warning.
pub resolve_historical_value-rebuilt :
    (i : HistoryInputs)
    → exact_anchors_for_date i.as_of i.exact_anchors ≡ []
    → ((resolve_historical_value i).value_usd ≡ value_if (is_complete i) (worth i i.positions))
      × ((resolve_historical_value i).sensitive_metrics_visible
          ≡ (is_complete i && all_positions i (is_sound i) i.positions))
unfolding resolve_historical_value resolve_by_anchors reconstruct_value
resolve_historical_value-rebuilt i h =
    rw (resolve_historical_value, h) (reconstruct_from_complete i i.positions)
