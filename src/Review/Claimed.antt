-- ===== src/Review/Claimed.antt =====
-- The claims that a decision makes, and the loop and the flush that add them.
use mathlib.Core.Path.{subst}
use mathlib.Core.Bool.{◌&&◌}
use portfolio_tracker_public.Prelude.{
  ℕ, ◌≡◌, inl, inr, refl, sym, ◌∙◌, ap, String, List, [], ◌∷◌, ◌++◌, map, none, some, true, ◌<>◌,
  false, ◌==◌, ==-refl, string_eq, eq_of_==, contains, contains-append, if◌then◌else◌, Bool-cases,
  Option-cases, arith, eqb, All, Any, In,
}
use portfolio_tracker_public.Prelude.Dict.{Distinct}
use portfolio_tracker_public.Review.Types.{
  Decision, transfer, cashflow, approval, basis, StoredDecision, EvidenceClaim, ReviewStore,
  conflict, integrity_error, done, raised, ◌>>=◌,
}
use portfolio_tracker_public.Review.Tables.{
  table_of, evidence_claims_for_decision, find_claim, is_same_claim, missing_claims, flush_claims,
  find_stored,
}
use portfolio_tracker_public.Review.Approved.{bind_done}
use mathlib.Core.List.{append-nil, append_assoc}

abbrev pub keys : List EvidenceClaim → List String
keys cs = map (λ (c : EvidenceClaim). c.evidence_key) cs

-- The claims of the tables: no evidence key is claimed twice, and each claim is one that a stored
-- decision makes.
pub record IsClaimed (s : ReviewStore) : Type 0 where
  pub distinct : Distinct (keys s.claims)
  pub owned :
      All (λ c. Any (λ d. In c (evidence_claims_for_decision d.decision d.id)) s.decisions) s.claims

==_sym : (a b : String) → (a == b) ≡ false → (b == a) ≡ false
==_sym a b h = elim (Bool-cases (b == a)) [
  | inl e ↦
      let same = eq_of_== b a e in
      let bad : true ≡ false = sym (==-refl a) ∙ ap (λ x. a == x) (sym same) ∙ h in absurd (cc bad)
  | inr e ↦ e
]

find_claim-none :
    (key : String) (cs : List EvidenceClaim)
    → find_claim key cs ≡ none
    → contains (keys cs) key ≡ false
unfolding find_claim
find_claim-none key [] h = refl
find_claim-none key (c ∷ cs) h = elim (Bool-cases (c.evidence_key == key)) [
  | inl e ↦ let bad : some c ≡ none = rw e at h in cc bad
  | inr e ↦
      let rest : find_claim key cs ≡ none = rw e at h in
      rw (==_sym c.evidence_key key e) (find_claim-none key cs rest)
]

Distinct-append :
    (xs : List String) (x : String)
    → Distinct xs
    → contains xs x ≡ false
    → Distinct (xs ++ (x ∷ []))
Distinct-append [] x h new = (refl, tt)
Distinct-append (y ∷ ys) x h new = elim (Bool-cases (x == y)) [
  | inl e ↦ let bad : true ≡ false = rw e at new in absurd (cc bad)
  | inr e ↦
      let later : contains ys x ≡ false = rw e at new in
      (contains-append ys (x ∷ []) y ∙ rw (h.0, ==_sym x y e) refl, Distinct-append ys x h.1 later)
]

keys-append : (xs ys : List EvidenceClaim) → keys (xs ++ ys) ≡ keys xs ++ keys ys
keys-append [] ys = refl
keys-append (x ∷ xs) ys = ap (λ ks. x.evidence_key ∷ ks) (keys-append xs ys)

pub flush_claims-Distinct :
    (claims cs after : List EvidenceClaim)
    → flush_claims claims cs ≡ done after
    → (after ≡ claims ++ cs) × (Distinct (keys claims) → Distinct (keys after))
unfolding flush_claims
flush_claims-Distinct claims [] after h =
    let e : claims ≡ after = cc h in
    (sym e ∙ sym (append-nil claims), λ d. subst (λ x. Distinct (keys x)) e d)
flush_claims-Distinct claims (c ∷ cs) after h =
    elim (Option-cases (find_claim c.evidence_key claims)) [
      | inr (other, e) ↦
          let bad : raised integrity_error ≡ done after = rw (flush_claims, e) at h in cc bad
      | inl e ↦
          let rest : flush_claims (claims ++ (c ∷ [])) cs ≡ done after =
            rw (flush_claims, e) at h in
          let (all, distinct) = flush_claims-Distinct (claims ++ (c ∷ [])) cs after rest in
          (
            all ∙ append_assoc claims (c ∷ []) cs,
            λ d. distinct (
                subst Distinct (sym (keys-append claims (c ∷ []))) (
                  Distinct-append (keys claims) c.evidence_key d
                    (find_claim-none c.evidence_key claims e))),
          )
    ]

-- The table of the decision that makes a claim.
unfoldable pub decision_table : String → String
decision_table source_table =
    if source_table == "accounting_transfer_links"
    then "accounting_transfer_link"
    else "accounting_external_cashflow_classification"

pub In-claims :
    (d : Decision) (id : ℕ) (c : EvidenceClaim)
    → In c (evidence_claims_for_decision d id)
    → (c.source_id ≡ id) × (decision_table c.source_table ≡ table_of d)
unfolding evidence_claims_for_decision decision_table string_eq
In-claims (transfer link) id c (inl e) = (
  ap (λ (x : EvidenceClaim). x.source_id) (sym e),
  ap (λ (x : EvidenceClaim). decision_table x.source_table) (sym e),
)
In-claims (transfer link) id c (inr (inl e)) = (
  ap (λ (x : EvidenceClaim). x.source_id) (sym e),
  ap (λ (x : EvidenceClaim). decision_table x.source_table) (sym e),
)
In-claims (transfer link) id c (inr (inr i)) = elim i [ ]
In-claims (cashflow f) id c (inl e) = (
  ap (λ (x : EvidenceClaim). x.source_id) (sym e),
  ap (λ (x : EvidenceClaim). decision_table x.source_table) (sym e),
)
In-claims (cashflow f) id c (inr i) = elim i [ ]
In-claims (approval a) id c i = elim i [ ]
In-claims (basis b) id c i = elim i [ ]

pub find_stored-Any :
    (t : String) (id : ℕ) (ds : List StoredDecision)
    → Any (λ d. (table_of d.decision ≡ t) × (d.id ≡ id)) ds
    → find_stored t id ds ≡ none
    → ⊥
unfolding find_stored
find_stored-Any t id [] i h = i
find_stored-Any t id (d ∷ ds) i h = elim (Bool-cases (table_of d.decision == t && eqb d.id id)) [
  | inl e ↦ let bad : some d ≡ none = rw e at h in cc bad
  | inr e ↦
      let rest : find_stored t id ds ≡ none = rw e at h in
      elim i [
        | inl (table, number) ↦
            let same : (table_of d.decision == t && eqb d.id id) ≡ true =
              rw (table, number) (rw (==-refl t) (ground arith)) in
            absurd (cc (sym same ∙ e))
        | inr later ↦ find_stored-Any t id ds later rest
      ]
]

pub is_same_claim_lem :
    (o c : EvidenceClaim)
    → is_same_claim o c ≡ true
    → (o.source_table ≡ c.source_table) × (o.source_id ≡ c.source_id)
is_same_claim_lem o c h = elim (Bool-cases (o.source_table == c.source_table)) [
  | inr e ↦ let bad : false ≡ true = rw e at h in absurd (cc bad)
  | inl e ↦ elim (Bool-cases (eqb o.source_id c.source_id)) [
    | inr f ↦ let bad : false ≡ true = rw (e, f) at h in absurd (cc bad)
    | inl f ↦ (eq_of_== o.source_table c.source_table e, ground arith)
  ]
]

In-find_claim :
    (key : String) (cs : List EvidenceClaim) (o : EvidenceClaim)
    → find_claim key cs ≡ some o
    → In o cs
unfolding find_claim
In-find_claim key [] o h = cc h
In-find_claim key (c ∷ cs) o h = elim (Bool-cases (c.evidence_key == key)) [
  | inl e ↦ let first : some c ≡ some o = rw e at h in inl (cc first)
  | inr e ↦ let rest : find_claim key cs ≡ some o = rw e at h in inr (In-find_claim key cs o rest)
]

pub missing_claims-free :
    (existing claims missing : List EvidenceClaim)
    → ((o c : EvidenceClaim) → In o existing → In c claims → is_same_claim o c ≡ true → ⊥)
    → missing_claims existing claims ≡ done missing
    → (missing ≡ claims) × All (λ c. find_claim c.evidence_key existing ≡ none) claims
unfolding missing_claims
missing_claims-free existing [] missing other h = (cc h, tt)
missing_claims-free existing (c ∷ cs) missing other h =
    elim (Option-cases (find_claim c.evidence_key existing)) [
      | inl e ↦
          let step : (missing_claims existing cs >>= λ ms. done (c ∷ ms)) ≡ done missing =
            rw (missing_claims, e) at h in
          let (ms, rest, h1) = bind_done (missing_claims existing cs) _ _ step in
          let (all, free) =
            missing_claims-free existing cs ms (λ o x i j. other o x i (inr j)) rest in
          let same : (c ∷ ms) ≡ missing = cc h1 in (sym same ∙ ap (λ xs. c ∷ xs) all, (e, free))
      | inr (o, e) ↦ elim (Bool-cases (is_same_claim o c)) [
        | inl same ↦ absurd (other o c (In-find_claim c.evidence_key existing o e) (inl refl) same)
        | inr differ ↦
            let bad : raised (conflict ("accounting evidence already claimed: " <> c.evidence_key))
                ≡ done missing =
              rw (missing_claims, e, differ) at h in
            cc bad
      ]
    ]
