-- ===== src/Reconcile/Dedupe.antt =====
-- What `_dedupe_movements` keeps.
use mathlib.Core.Path.{subst, sym}
use portfolio_tracker_public.Prelude.{
  ◌≡◌, ◌∙◌, refl, String, List, [], ◌∷◌, map, Option, none, some, if◌then◌else◌, ◌==◌, string_eq,
  arith, All, In, All-In,
}
use portfolio_tracker_public.Prelude.Dict.{
  Dict, get, setdefault, AllEntries, setdefault-AllEntries, All-values, get-setdefault,
  get-Any-values, Distinct, DistinctKeys, setdefault-DistinctKeys, values-Distinct, AllEntries-mono,
  AllEntries-both, get-entries,
}
use portfolio_tracker_public.Reconcile.Types.{MovementEvidence}
use portfolio_tracker_public.Reconcile.Matching.{add_movement, dedupe_movements}

-- The first movement of a key.
abbrev pub first_of : String → List MovementEvidence → Option MovementEvidence
first_of key [] = none
first_of key (m ∷ ms) = if key == m.evidence_key then some m else first_of key ms

abbrev otherwise : Option MovementEvidence → Option MovementEvidence → Option MovementEvidence
otherwise none o = o
otherwise (some m) o = some m

get-add_movement :
    (key : String) (d : Dict String MovementEvidence) (ms : List MovementEvidence)
    → get key (add_movement d ms) ≡ otherwise (get key d) (first_of key ms)
unfolding add_movement
get-add_movement key d [] = ground arith
get-add_movement key d (m ∷ ms) = ground (
  arith,
  get-add_movement key (setdefault m.evidence_key m d) ms,
  get-setdefault key m.evidence_key m d,
)

-- An entry is filed under its own key, and comes from the list.
abbrev IsFiled : List MovementEvidence → String → MovementEvidence → Type 0
IsFiled ms key m = (key ≡ m.evidence_key) × In m ms

add_movement-IsFiled :
    (all : List MovementEvidence) (d : Dict String MovementEvidence) (ms : List MovementEvidence)
    → All (λ m. In m all) ms
    → AllEntries (IsFiled all) d
    → AllEntries (IsFiled all) (add_movement d ms)
unfolding add_movement
add_movement-IsFiled all d [] h f = f
add_movement-IsFiled all d (m ∷ ms) h f =
    add_movement-IsFiled all (setdefault m.evidence_key m d) ms h.1
      (setdefault-AllEntries (IsFiled all) m.evidence_key m d (refl, h.0) f)

add_movement-DistinctKeys :
    (d : Dict String MovementEvidence) (ms : List MovementEvidence)
    → DistinctKeys d
    → DistinctKeys (add_movement d ms)
unfolding add_movement
add_movement-DistinctKeys d [] h = h
add_movement-DistinctKeys d (m ∷ ms) h =
    add_movement-DistinctKeys (setdefault m.evidence_key m d) ms
      (setdefault-DistinctKeys m.evidence_key m d h)

members_of_themselves : (ms : List MovementEvidence) → All (λ m. In m ms) ms
members_of_themselves ms = All-In (λ m. In m ms) ms (λ m i. i)

filed : (ms : List MovementEvidence) → AllEntries (IsFiled ms) (add_movement [] ms)
filed ms = add_movement-IsFiled ms [] ms (members_of_themselves ms) tt

keys_filed :
    (ms : List MovementEvidence) → AllEntries (λ k m. k ≡ m.evidence_key) (add_movement [] ms)
keys_filed ms = AllEntries-mono (IsFiled ms) _ (λ k m h. h.0) _ (filed ms)

-- Every movement kept stands in the input.
pub dedupe_movements-In : (ms : List MovementEvidence) → All (λ m. In m ms) (dedupe_movements ms)
unfolding dedupe_movements
dedupe_movements-In ms = All-values (IsFiled ms) _ (λ k m h. h.1) _ (filed ms)

get-first_of :
    (key : String) (ms : List MovementEvidence) → get key (add_movement [] ms) ≡ first_of key ms
unfolding get
get-first_of key ms = get-add_movement key [] ms

distinct : (ms : List MovementEvidence) → DistinctKeys (add_movement [] ms)
distinct ms = add_movement-DistinctKeys [] ms tt

kept_first :
    (ms : List MovementEvidence)
    → AllEntries (λ k m. first_of m.evidence_key ms ≡ some m) (add_movement [] ms)
kept_first ms =
    AllEntries-mono (λ k m. (get k (add_movement [] ms) ≡ some m) × (k ≡ m.evidence_key)) _
      (λ k m h. subst (λ j. first_of j ms ≡ some m) h.1 (sym (get-first_of k ms) ∙ h.0)) _
      (AllEntries-both _ _ _ (get-entries _ (distinct ms)) (keys_filed ms))

-- Deduplication keeps, of each evidence key, exactly the first movement of the input: no key is kept
-- twice, what is kept is the first of its key, and the first of a key is kept.
pub dedupe_movements_first :
    (ms : List MovementEvidence)
    → Distinct (map (λ m. m.evidence_key) (dedupe_movements ms))
      × All (λ m. first_of m.evidence_key ms ≡ some m) (dedupe_movements ms)
      × ((key : String) (m : MovementEvidence)
          → first_of key ms ≡ some m
          → In m (dedupe_movements ms))
unfolding dedupe_movements
dedupe_movements_first ms = (
  values-Distinct (λ m. m.evidence_key) (add_movement [] ms) (keys_filed ms) (distinct ms),
  All-values _ _ (λ k m h. h) _ (kept_first ms),
  λ key m h. get-Any-values (λ x. x ≡ m) key (add_movement [] ms) m (get-first_of key ms ∙ h) refl,
)
