-- ===== src/Review/Refreshed.antt =====
-- The claims on evidence of a new decision, with the trigger of the table and without it.
use mathlib.Core.Path.{subst}
use portfolio_tracker_public.Prelude.{
  ◌≡◌, inl, inr, sym, ◌∙◌, String, List, ◌++◌, true, false, string_eq, All, In, All-In, Bool-cases,
  Option-cases, keep, not, eqb, arith, eq_of_==, ◌==◌, refl, ◌⊎◌, none, some, Any-append_right,
}
use portfolio_tracker_public.Prelude.Dict.{Distinct}
use portfolio_tracker_public.Review.Types.{
  Decision, StoredDecision, EvidenceClaim, ReviewStore, done, ◌>>=◌, Surroundings, transfer,
  cashflow, approval, basis,
}
use portfolio_tracker_public.Review.Tables.{
  table_of, evidence_claims_for_decision, find_claim, claim_decision_evidence, find_stored,
  flush_claims, refresh_accounting_evidence_claims, trigger_table, is_of_row, provenance_of,
}
use portfolio_tracker_public.Review.Approve.{claim_evidence}
use portfolio_tracker_public.Review.Approved.{bind_done}
use portfolio_tracker_public.Review.Claimed.{keys, IsClaimed, flush_claims-Distinct, decision_table}
use portfolio_tracker_public.Review.Owned.{
  not_of_row, claim_decision_evidence-free, keep_all, flush_claims-free, find_claim-own,
  missing_claims-own,
}

decision_of_trigger :
    (d : Decision) (table : String)
    → trigger_table d ≡ some table
    → decision_table table ≡ table_of d
unfolding decision_table string_eq
decision_of_trigger (transfer link) table h =
    let e : "accounting_transfer_links" ≡ table = cc h in rw (← e) refl
decision_of_trigger (cashflow c) table h =
    let e : "accounting_external_cashflow_classifications" ≡ table = cc h in rw (← e) refl
decision_of_trigger (approval a) table h = cc h
decision_of_trigger (basis b) table h = cc h

-- The claims that stand beside those of a new row are all claims.
others_all :
    (s : ReviewStore) (d : StoredDecision) (table : String)
    → IsClaimed s
    → find_stored (table_of d.decision) d.id s.decisions ≡ none
    → trigger_table d.decision ≡ some table
    → keep (λ c. not (is_of_row table d.id c)) s.claims ≡ s.claims
others_all s d table claimed unused triggers =
    keep_all (λ c. not (is_of_row table d.id c)) s.claims
      (λ c i. elim (Bool-cases (is_of_row table d.id c)) [
        | inr e ↦ rw e refl
        | inl e ↦ elim (Bool-cases (c.source_table == table)) [
          | inr f ↦ let bad : false ≡ true = rw f at e in absurd (cc bad)
          | inl f ↦
              let id : eqb c.source_id d.id ≡ true = rw f at e in
              absurd (
                not_of_row s d table c claimed unused
                  (decision_of_trigger d.decision table triggers) i
                  (eq_of_== c.source_table table f) (ground arith))
        ]
      ])

-- The trigger changes nothing, or claims what the row makes.
refreshed :
    (s : ReviewStore) (d : StoredDecision) (kept : List EvidenceClaim)
    → IsClaimed s
    → find_stored (table_of d.decision) d.id s.decisions ≡ none
    → refresh_accounting_evidence_claims s.claims d ≡ done kept
    → (kept ≡ s.claims)
      ⊎ (flush_claims s.claims (evidence_claims_for_decision d.decision d.id) ≡ done kept)
unfolding refresh_accounting_evidence_claims
refreshed s d kept claimed unused h = elim (Option-cases (trigger_table d.decision)) [
  | inl e ↦
      let same : done s.claims ≡ done kept = rw (refresh_accounting_evidence_claims, e) at h in
      inl (sym (cc same))
  | inr (table, e) ↦
      let all = others_all s d table claimed unused e in
      elim (Bool-cases ((provenance_of d.decision).status == "active")) [
        | inl active ↦
            let made : flush_claims (keep (λ c. not (is_of_row table d.id c)) s.claims)
                  (evidence_claims_for_decision d.decision d.id)
                ≡ done kept =
              rw (refresh_accounting_evidence_claims, e, active) at h in
            inr (
              subst
                (λ cs. flush_claims cs (evidence_claims_for_decision d.decision d.id) ≡ done kept)
                all made)
        | inr inactive ↦
            let same : done (keep (λ c. not (is_of_row table d.id c)) s.claims) ≡ done kept =
              rw (refresh_accounting_evidence_claims, e, inactive) at h in
            inl (sym (cc same) ∙ all)
      ]
]

-- After the trigger has claimed what the row makes, nothing is left to claim.
claim_decision_evidence-again :
    (claims kept after : List EvidenceClaim) (d : StoredDecision)
    → kept ≡ claims ++ evidence_claims_for_decision d.decision d.id
    → Distinct (keys kept)
    → claim_decision_evidence kept d ≡ done after
    → after ≡ kept
unfolding claim_decision_evidence flush_claims
claim_decision_evidence-again claims kept after d whole distinct h =
    let mine = evidence_claims_for_decision d.decision d.id in
    let own = missing_claims-own kept mine (
      All-In _ mine (λ c i.
        find_claim-own c kept distinct
          (subst (λ cs. In c cs) (sym whole) (Any-append_right (λ x. x ≡ c) claims mine i)))) in
    let same : done kept ≡ done after = rw own at h in sym (cc same)

pub claim_evidence-free :
    (env : Surroundings) (s : ReviewStore) (d : StoredDecision) (after : List EvidenceClaim)
    → IsClaimed s
    → find_stored (table_of d.decision) d.id s.decisions ≡ none
    → claim_evidence env s.claims d ≡ done after
    → (after ≡ s.claims ++ evidence_claims_for_decision d.decision d.id)
      × Distinct (keys after)
      × All
          (λ c. find_claim c.evidence_key s.claims ≡ none)
          (evidence_claims_for_decision d.decision d.id)
unfolding claim_evidence
claim_evidence-free env s d after claimed unused h = elim (Bool-cases env.has_triggers) [
  | inr e ↦
      let plain : claim_decision_evidence s.claims d ≡ done after = rw (claim_evidence, e) at h in
      claim_decision_evidence-free s d after claimed unused plain
  | inl e ↦
      let step : (refresh_accounting_evidence_claims s.claims d >>= λ kept.
      claim_decision_evidence kept d)
          ≡ done after =
        rw (claim_evidence, e) at h in
      let (kept, made, rest) = bind_done (refresh_accounting_evidence_claims s.claims d) _ _ step in
      elim (refreshed s d kept claimed unused made) [
        | inl same ↦
            claim_decision_evidence-free s d after claimed unused
              (subst (λ cs. claim_decision_evidence cs d ≡ done after) same rest)
        | inr flushed ↦
            let mine = evidence_claims_for_decision d.decision d.id in
            let (whole, distinct) = flush_claims-Distinct s.claims mine kept flushed in
            let own = distinct claimed.distinct in
            let again = claim_decision_evidence-again s.claims kept after d whole own rest in
            (
              again ∙ whole,
              subst (λ cs. Distinct (keys cs)) (sym again) own,
              flush_claims-free s.claims mine kept flushed,
            )
      ]
]
