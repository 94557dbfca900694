-- ===== src/Capital/Gravity.antt =====
-- How grave the summary's confidence is.
use portfolio_tracker_public.Prelude.{◌≤◌, List, [], ◌∷◌, map, All}
use portfolio_tracker_public.Confidence.{Confidence, rank, max_confidence_least}
use portfolio_tracker_public.Capital.Types.{ConfidenceImpact, CapitalInputs}
use portfolio_tracker_public.Capital.Summary.{all_impacts, calculate_capital_truth}
use portfolio_tracker_public.Capital.Scopes.{all_impacts_bounds}

All-map_inv :
    (P : Confidence → Type 0) (is : List ConfidenceImpact)
    → All (λ i. P i.state) is
    → All P (map (λ i. i.state) is)
All-map_inv P [] h = tt
All-map_inv P (i ∷ is) h = (h.0, All-map_inv P is h.1)

-- The summary's confidence is the mildest state that no impact is graver than: every impact is at most
-- as grave, and so is the summary wherever all impacts are.
pub calculate_capital_truth-confidence :
    (inputs : CapitalInputs)
    → let confidence = (calculate_capital_truth inputs).confidence_state in
      All (λ i. rank i.state ≤ rank confidence) (all_impacts inputs)
      × ((state : Confidence)
          → All (λ i. rank i.state ≤ rank state) (all_impacts inputs)
          → rank confidence ≤ rank state)
unfolding calculate_capital_truth
calculate_capital_truth-confidence inputs = (
  all_impacts_bounds inputs,
  λ state h.
      max_confidence_least _ (rank state)
        (All-map_inv (λ c. rank c ≤ rank state) (all_impacts inputs) h),
)
