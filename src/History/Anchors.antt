-- ===== src/History/Anchors.antt =====
-- `_exact_anchors_for_date`
use portfolio_tracker_public.Prelude.{
  ℕ, ◌*◌, ◌/◌, ◌^◌, List, [], ◌∷◌, Bool, ◌&&◌, if◌then◌else◌, keep,
}
use portfolio_tracker_public.Prelude.Int.{ℤ, pos, negsuc, leb_ℤ, eqb_ℤ, ltb_ℤ}
use portfolio_tracker_public.History.Types.{HistoricalValueAnchor}

abbrev pub day_length : ℕ
day_length = 24 * 3600 * 10 ^ 6

-- The number of the day of a time: the quotient rounded down.
abbrev pub day_of : ℤ → ℤ
day_of (pos n) = pos (n / day_length)
day_of (negsuc n) = negsuc (n / day_length)

-- An anchor of the day of `as_of`, up to it
abbrev pub is_same_day : ℤ → HistoricalValueAnchor → Bool
is_same_day as_of a = eqb_ℤ (day_of a.captured_at) (day_of as_of) && leb_ℤ a.captured_at as_of

-- `max(anchor.captured_at for anchor in anchors)` of a first and further anchors
unfoldable pub latest_of : ℤ → List HistoricalValueAnchor → ℤ
latest_of m [] = m
latest_of m (a ∷ others) = latest_of (if ltb_ℤ m a.captured_at then a.captured_at else m) others

abbrev pub captured_at_latest : List HistoricalValueAnchor → List HistoricalValueAnchor
captured_at_latest [] = []
captured_at_latest (a ∷ others) =
    let latest = latest_of a.captured_at others in
    keep (λ b. eqb_ℤ b.captured_at latest) (a ∷ others)

unfoldable pub exact_anchors_for_date : ℤ → List HistoricalValueAnchor → List HistoricalValueAnchor
exact_anchors_for_date as_of anchors = captured_at_latest (keep (is_same_day as_of) anchors)
