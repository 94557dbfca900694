-- ===== src/Review/Owned.antt =====
-- Claims that stand already, and those that a row of a new id makes.
use portfolio_tracker_public.Prelude.{
  ◌≡◌, inl, inr, sym, ◌∙◌, ap, String, List, [], ◌∷◌, ◌++◌, true, string_eq, All, Any, In, In-All,
  All-mono, Bool-cases, Option-cases, ==-refl, contains, keep, eqb, arith, Bool, eq_of_==, ◌==◌,
  refl, none, some, Any-mono,
}
use portfolio_tracker_public.Prelude.Dict.{Distinct}
use portfolio_tracker_public.Review.Types.{
  StoredDecision, EvidenceClaim, ReviewStore, done, raised, integrity_error,
}
use portfolio_tracker_public.Review.Tables.{
  table_of, evidence_claims_for_decision, find_claim, is_same_claim, missing_claims,
  claim_decision_evidence, find_stored, flush_claims,
}
use portfolio_tracker_public.Review.Approved.{bind_done}
use portfolio_tracker_public.Review.Claimed.{
  keys, IsClaimed, flush_claims-Distinct, decision_table, In-claims, find_stored-Any,
  is_same_claim_lem, missing_claims-free,
}

-- A claim of the tables is not one of a row whose id no row has.
pub not_of_row :
    (s : ReviewStore) (d : StoredDecision) (table : String) (o : EvidenceClaim)
    → IsClaimed s
    → find_stored (table_of d.decision) d.id s.decisions ≡ none
    → decision_table table ≡ table_of d.decision
    → In o s.claims
    → o.source_table ≡ table
    → o.source_id ≡ d.id
    → ⊥
not_of_row s d table o claimed unused of_table i same_table same_id =
    let owner =
      In-All (λ c. Any (λ d. In c (evidence_claims_for_decision d.decision d.id)) s.decisions)
        s.claims claimed.owned i in
    find_stored-Any (table_of d.decision) d.id s.decisions
      (Any-mono _ _
        (λ d' k.
          let (its_id, its_table) = In-claims d'.decision d'.id o k in
          (sym its_table ∙ ap decision_table same_table ∙ of_table, sym its_id ∙ same_id))
        s.decisions owner)
      unused

-- The claims of a decision, where the table has none of them: none of its evidence was claimed, and
-- all of it is now.
pub claim_decision_evidence-free :
    (s : ReviewStore) (d : StoredDecision) (after : List EvidenceClaim)
    → IsClaimed s
    → find_stored (table_of d.decision) d.id s.decisions ≡ none
    → claim_decision_evidence s.claims d ≡ done after
    → (after ≡ s.claims ++ evidence_claims_for_decision d.decision d.id)
      × Distinct (keys after)
      × All
          (λ c. find_claim c.evidence_key s.claims ≡ none)
          (evidence_claims_for_decision d.decision d.id)
unfolding claim_decision_evidence
claim_decision_evidence-free s d after claimed unused h =
    let mine = evidence_claims_for_decision d.decision d.id in
    let (missing, found, flushed) = bind_done (missing_claims s.claims mine) _ _ h in
    let (all, free) = missing_claims-free s.claims mine missing other found in
    let (whole, distinct) = flush_claims-Distinct s.claims missing after flushed in
    (whole ∙ ap (λ xs. s.claims ++ xs) all, distinct claimed.distinct, free)
  where
    other :
        (o c : EvidenceClaim)
        → In o s.claims
        → In c (evidence_claims_for_decision d.decision d.id)
        → is_same_claim o c ≡ true
        → ⊥
    other o c i j same =
        let (table, id) = is_same_claim_lem o c same in
        let (my_id, my_table) = In-claims d.decision d.id c j in
        not_of_row s d c.source_table o claimed unused my_table i table (id ∙ my_id)

pub keep_all :
    (p : EvidenceClaim → Bool) (cs : List EvidenceClaim)
    → ((c : EvidenceClaim) → In c cs → p c ≡ true)
    → keep p cs ≡ cs
keep_all p [] h = refl
keep_all p (c ∷ cs) h =
    let rest = keep_all p cs (λ x i. h x (inr i)) in let here = h c (inl refl) in ground arith

find_claim-append_none :
    (key : String) (cs ds : List EvidenceClaim)
    → find_claim key (cs ++ ds) ≡ none
    → find_claim key cs ≡ none
unfolding find_claim
find_claim-append_none key [] ds h = refl
find_claim-append_none key (c ∷ cs) ds h = elim (Bool-cases (c.evidence_key == key)) [
  | inl e ↦ let bad : some c ≡ none = rw e at h in cc bad
  | inr e ↦
      let rest : find_claim key (cs ++ ds) ≡ none = rw e at h in
      rw e (find_claim-append_none key cs ds rest)
]

pub flush_claims-free :
    (claims cs after : List EvidenceClaim)
    → flush_claims claims cs ≡ done after
    → All (λ c. find_claim c.evidence_key claims ≡ none) cs
unfolding flush_claims
flush_claims-free claims [] after h = tt
flush_claims-free claims (c ∷ cs) after h = elim (Option-cases (find_claim c.evidence_key claims)) [
  | inr (other, e) ↦
      let bad : raised integrity_error ≡ done after = rw (flush_claims, e) at h in cc bad
  | inl e ↦
      let rest : flush_claims (claims ++ (c ∷ [])) cs ≡ done after = rw (flush_claims, e) at h in
      (
        e,
        All-mono (λ x. find_claim x.evidence_key (claims ++ (c ∷ [])) ≡ none) _
            (λ x free. find_claim-append_none x.evidence_key claims (c ∷ []) free) cs
            (flush_claims-free (claims ++ (c ∷ [])) cs after rest),
      )
]

claim_stands :
    (c : EvidenceClaim) (cs : List EvidenceClaim)
    → In c cs
    → contains (keys cs) c.evidence_key ≡ true
claim_stands c [] i = elim i [ ]
claim_stands c (x ∷ cs) (inl e) = rw e (rw (==-refl c.evidence_key) refl)
claim_stands c (x ∷ cs) (inr i) = let rest = claim_stands c cs i in ground arith

pub find_claim-own :
    (c : EvidenceClaim) (cs : List EvidenceClaim)
    → Distinct (keys cs)
    → In c cs
    → find_claim c.evidence_key cs ≡ some c
unfolding find_claim
find_claim-own c [] h i = elim i [ ]
find_claim-own c (x ∷ cs) h (inl e) = rw e (rw (==-refl c.evidence_key) refl)
find_claim-own c (x ∷ cs) h (inr i) = elim (Bool-cases (x.evidence_key == c.evidence_key)) [
  | inl e ↦
      let same = eq_of_== x.evidence_key c.evidence_key e in
      absurd (cc (sym h.0 ∙ ap (contains (keys cs)) same ∙ claim_stands c cs i))
  | inr e ↦ rw e (find_claim-own c cs h.1 i)
]

is_same_claim_refl : (c : EvidenceClaim) → is_same_claim c c ≡ true
is_same_claim_refl c =
    let id : eqb c.source_id c.source_id ≡ true = ground arith in
    rw (==-refl c.source_table, id, ==-refl c.claim_role) refl

-- What the trigger claimed is not claimed again.
pub missing_claims-own :
    (existing cs : List EvidenceClaim)
    → All (λ c. find_claim c.evidence_key existing ≡ some c) cs
    → missing_claims existing cs ≡ done []
unfolding missing_claims
missing_claims-own existing [] h = refl
missing_claims-own existing (c ∷ cs) h =
    let same = is_same_claim_refl c in
    rw (missing_claims, h.0) (rw same (missing_claims-own existing cs h.1))
