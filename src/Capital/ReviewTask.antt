-- ===== src/Capital/ReviewTask.antt =====
-- The task that the summary puts first.
use portfolio_tracker_public.Prelude.{
  ◌≤◌, ◌<◌, ◌≡◌, ◌⊎◌, refl, ap, List, [], ◌∷◌, ◌++◌, none, true, false, leb, keep, arith, All,
  All-mono, Bool-cases, inl, inr,
}
use portfolio_tracker_public.Confidence.{rank}
use portfolio_tracker_public.Capital.Types.{ConfidenceImpact, CapitalInputs}
use portfolio_tracker_public.Capital.Summary.{
  insert_ranked, sort_ranked, is_ranked, first_task, top_review_task_id, all_impacts,
  calculate_capital_truth,
}

abbrev IsMilder : ConfidenceImpact → ConfidenceImpact → Type 0
IsMilder i j = is_ranked j ≡ true → rank j.state < rank i.state

abbrev IsNoGraver : ConfidenceImpact → ConfidenceImpact → Type 0
IsNoGraver i j = is_ranked j ≡ true → rank j.state ≤ rank i.state

-- `i` is under review and has a task; those before it that do too are milder, and those after it
-- are no graver.
abbrev pub IsFirstGravest : List ConfidenceImpact → ConfidenceImpact → Type 0
IsFirstGravest is i =
    (before : List ConfidenceImpact) × (after : List ConfidenceImpact) × (is ≡ before ++ i ∷ after)
    × (is_ranked i ≡ true)
    × All (IsMilder i) before
    × All (IsNoGraver i) after

abbrev Outcome : List ConfidenceImpact → List ConfidenceImpact → Type 0
Outcome is [] = All (λ j. is_ranked j ≡ false) is
Outcome is (i ∷ _) = IsFirstGravest is i

skip_unranked :
    (x : ConfidenceImpact) (xs sorted : List ConfidenceImpact)
    → is_ranked x ≡ false
    → Outcome xs sorted
    → Outcome (x ∷ xs) sorted
skip_unranked x xs [] u h = (u, h)
skip_unranked x xs (i ∷ _) u (before, after, e, r, b, a) =
    (x ∷ before, after, ap (◌∷◌ x) e, r, (λ t. cc, b), a)

IsNoGraver-of_unranked :
    (x : ConfidenceImpact) (xs : List ConfidenceImpact)
    → All (λ j. is_ranked j ≡ false) xs
    → All (IsNoGraver x) xs
IsNoGraver-of_unranked x xs h = All-mono _ (IsNoGraver x) (λ j u t. cc) xs h

IsNoGraver-of_split :
    (x i : ConfidenceImpact) (before after : List ConfidenceImpact)
    → rank i.state ≤ rank x.state
    → All (IsMilder i) before
    → All (IsNoGraver i) after
    → All (IsNoGraver x) (before ++ i ∷ after)
IsNoGraver-of_split x i [] after le b a =
    (λ t. le, All-mono (IsNoGraver i) (IsNoGraver x) (λ j f t. omega (arith, f t)) after a)
IsNoGraver-of_split x i (j ∷ before) after le b a =
    (λ t. omega (arith, b.0 t), IsNoGraver-of_split x i before after le b.1 a)

insert_one :
    (x : ConfidenceImpact) (xs sorted : List ConfidenceImpact)
    → is_ranked x ≡ true
    → Outcome xs sorted
    → Outcome (x ∷ xs) (insert_ranked x sorted)
unfolding insert_ranked
insert_one x xs [] r h = ([], xs, refl, r, tt, IsNoGraver-of_unranked x xs h)
insert_one x xs (i ∷ is) r (before, after, e, ri, b, a) =
    elim (Bool-cases (leb (rank i.state) (rank x.state))) [
      | inl le ↦
          rw le
            ([], xs, refl, r, tt, rw e (IsNoGraver-of_split x i before after (ground arith) b a))
      | inr gt ↦ rw gt (x ∷ before, after, ap (◌∷◌ x) e, ri, (λ t. ground arith, b), a)
    ]

sort_ranked-Outcome : (is : List ConfidenceImpact) → Outcome is (sort_ranked (keep is_ranked is))
unfolding sort_ranked
sort_ranked-Outcome [] = tt
sort_ranked-Outcome (x ∷ xs) = elim (Bool-cases (is_ranked x)) [
  | inl ranked ↦ rw ranked (insert_one x xs _ ranked (sort_ranked-Outcome xs))
  | inr unranked ↦ rw unranked (skip_unranked x xs _ unranked (sort_ranked-Outcome xs))
]

first_task_of_Outcome :
    (is sorted : List ConfidenceImpact)
    → Outcome is sorted
    → (All (λ j. is_ranked j ≡ false) is × (first_task sorted ≡ none))
      ⊎ ((i : ConfidenceImpact) × IsFirstGravest is i × (first_task sorted ≡ i.review_task_id))
first_task_of_Outcome is [] h = inl (h, refl)
first_task_of_Outcome is (i ∷ _) h = inr (i, h, refl)

-- The summary's top task: none if no impact both is under review and has a task; else that of the
-- first among the gravest impacts that do.
pub top_review_task-IsFirstGravest :
    (inputs : CapitalInputs)
    → let is = all_impacts inputs in
      let top = (calculate_capital_truth inputs).top_review_task_id in
      (All (λ j. is_ranked j ≡ false) is × (top ≡ none))
      ⊎ ((i : ConfidenceImpact) × IsFirstGravest is i × (top ≡ i.review_task_id))
unfolding calculate_capital_truth top_review_task_id
top_review_task-IsFirstGravest inputs =
    first_task_of_Outcome (all_impacts inputs) _ (sort_ranked-Outcome (all_impacts inputs))
