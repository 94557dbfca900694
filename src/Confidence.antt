-- ===== src/Confidence.antt =====
-- The confidence states of the accounting services, with their order: `CONFIDENCE_ORDER` and
-- `_max_confidence` of api/app/services/accounting_capital.py, which accounting_performance.py
-- repeats under other names. A state outside the five is a `KeyError` there, and has no value here;
-- the database's check constraints admit these five only.
use portfolio_tracker_public.Prelude.{
  ℕ, ◌≤◌, ◌≡◌, List, [], ◌∷◌, String, Eq, arith, if◌then◌else◌, ltb, All,
}

pub data Confidence : Type 0 where
  trusted warning provisional review_required blocked : Confidence

Confidence-discrete : Discrete Confidence
Confidence-discrete = hlevel

instance unfoldable pub confidence_eq : Eq Confidence
unfolding Confidence-discrete
confidence_eq = record { dec = Confidence-discrete }

-- `CONFIDENCE_ORDER`
abbrev pub rank : Confidence → ℕ
rank trusted = 0
rank warning = 1
rank provisional = 2
rank review_required = 3
rank blocked = 4

-- The text of a state, as an f-string prints it.
unfoldable pub label : Confidence → String
label trusted = "trusted"
label warning = "warning"
label provisional = "provisional"
label review_required = "review_required"
label blocked = "blocked"

unfoldable pub max_from : Confidence → List Confidence → Confidence
max_from max_state [] = max_state
max_from max_state (state ∷ states) =
    max_from (if ltb (rank max_state) (rank state) then state else max_state) states

-- `_max_confidence`
unfoldable pub max_confidence : List Confidence → Confidence
unfolding max_from
max_confidence states = max_from trusted states

pub rank_injective : (a b : Confidence) → rank a ≡ rank b → a ≡ b
rank_injective a b h = ground arith

pub rank-le-max_from : (acc : Confidence) (xs : List Confidence) → rank acc ≤ rank (max_from acc xs)
unfolding max_from
rank-le-max_from acc [] = omega arith
rank-le-max_from acc (x ∷ xs) = ground (arith, rank-le-max_from acc xs, rank-le-max_from x xs)

pub max_from_bounds :
    (acc : Confidence) (xs : List Confidence) → All (λ x. rank x ≤ rank (max_from acc xs)) xs
unfolding max_from
max_from_bounds acc [] = tt
max_from_bounds acc (x ∷ xs) =
    let next = if ltb (rank acc) (rank x) then x else acc in
    (ground (arith, rank-le-max_from acc xs, rank-le-max_from x xs), max_from_bounds next xs)

pub max_from_least :
    (acc : Confidence) (xs : List Confidence) (n : ℕ)
    → rank acc ≤ n
    → All (λ x. rank x ≤ n) xs
    → rank (max_from acc xs) ≤ n
unfolding max_from
max_from_least acc [] n h hs = h
max_from_least acc (x ∷ xs) n h hs =
    max_from_least (if ltb (rank acc) (rank x) then x else acc) xs n (ground arith) hs.1

-- Every state is at most the maximum.
pub max_confidence_bounds : (xs : List Confidence) → All (λ x. rank x ≤ rank (max_confidence xs)) xs
unfolding max_confidence
max_confidence_bounds xs = max_from_bounds trusted xs

-- Whatever bounds every state bounds the maximum.
pub max_confidence_least :
    (xs : List Confidence) (n : ℕ) → All (λ x. rank x ≤ n) xs → rank (max_confidence xs) ≤ n
unfolding max_confidence
max_confidence_least xs n h = max_from_least trusted xs n (omega arith) h
