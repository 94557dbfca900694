-- ===== src/Review/Claims.antt =====
-- Evidence is claimed by one decision.
use mathlib.Core.Path.{subst}
use portfolio_tracker_public.Prelude.{
  ℕ, ◌≡◌, inl, inr, sym, ◌∙◌, ap, String, [], ◌∷◌, ◌++◌, Option, none, true, false, string_eq, All,
  Any, In, All-In, All-append, All-mono, Any-append_left, Any-append_right,
}
use portfolio_tracker_public.Prelude.Dict.{Distinct}
use portfolio_tracker_public.Reconcile.Resolve.{TaskRow}
use portfolio_tracker_public.Review.Types.{
  DecisionRequest, DecisionResponse, StoredDecision, ReviewStore, done, Surroundings,
}
use portfolio_tracker_public.Review.Tables.{
  table_of, evidence_claims_for_decision, find_claim, find_stored,
}
use portfolio_tracker_public.Review.Approve.{approve_accounting_review_decision}
use portfolio_tracker_public.Review.Approved.{IsApproved, approve_done}
use portfolio_tracker_public.Review.Keyed.{IsFresh}
use portfolio_tracker_public.Review.Replay.{idempotent_replay-IsReplay}
use portfolio_tracker_public.Review.Refreshed.{claim_evidence-free}
use portfolio_tracker_public.Review.Claimed.{keys, IsClaimed}

approved-claims :
    (env : Surroundings) (s : ReviewStore) (request : DecisionRequest) (user_id : Option ℕ)
    (username : String) (response : DecisionResponse) (s' : ReviewStore) (task : TaskRow)
    → IsFresh env
    → IsClaimed s
    → (a : IsApproved env s task request user_id username response s')
    → IsClaimed s'
      × (s'.claims ≡ s.claims ++ evidence_claims_for_decision a.added.decision a.added.id)
      × All
          (λ c. find_claim c.evidence_key s.claims ≡ none)
          (evidence_claims_for_decision a.added.decision a.added.id)
approved-claims env s request user_id username response s' task fresh claimed a =
    let d = a.added in
    let mine = evidence_claims_for_decision d.decision d.id in
    let table = ap (λ (x : StoredDecision). table_of x.decision) a.is_added in
    let id =
      ap (λ (x : StoredDecision). x.id) a.is_added
      ∙ ap (λ t. env.new_id t s.decisions) (sym table) in
    let unused =
      ap (λ i. find_stored (table_of d.decision) i s.decisions) id
      ∙ fresh (table_of d.decision) s.decisions in
    let (whole, distinct, free) = claim_evidence-free env s d a.claims claimed unused a.claimed in
    let claims : s'.claims ≡ a.claims = ap (λ (x : ReviewStore). x.claims) a.stores in
    let decisions : s'.decisions ≡ s.decisions ++ (d ∷ []) =
      ap (λ (x : ReviewStore). x.decisions) a.stores in
    let owners =
      All-append _ s.claims mine
        (All-mono _ _
          (λ c o.
            Any-append_left (λ d. In c (evidence_claims_for_decision d.decision d.id)) s.decisions
              (d ∷ []) o)
          s.claims claimed.owned)
        (All-In _ mine (λ c i.
          Any-append_right (λ d. In c (evidence_claims_for_decision d.decision d.id)) s.decisions
            (d ∷ []) (inl i))) in
    (
      record {
        distinct = subst (λ x. Distinct (keys x)) (sym claims) distinct;
        owned =
            subst
              (λ ds.
                All (λ c. Any (λ d. In c (evidence_claims_for_decision d.decision d.id)) ds)
                  s'.claims)
              (sym decisions)
              (subst
                (All (λ c.
                  Any (λ d. In c (evidence_claims_for_decision d.decision d.id))
                    (s.decisions ++ (d ∷ []))))
                (sym (claims ∙ whole)) owners);
      },
      claims ∙ whole,
      free,
    )

-- Where no evidence key is claimed twice and each claim is one that a stored decision makes, this still
-- holds after every answered request, provided that the database gives a new row an id that no row of
-- its table has.
pub approve-IsClaimed :
    (env : Surroundings) (s : ReviewStore) (request : DecisionRequest) (user_id : Option ℕ)
    (username : String) (response : DecisionResponse) (s' : ReviewStore)
    → IsFresh env
    → IsClaimed s
    → approve_accounting_review_decision env s request user_id username ≡ done (response, s')
    → IsClaimed s'
approve-IsClaimed env s request user_id username response s' fresh claimed h =
    let (task, found, cases) = approve_done env s request user_id username response s' h in
    elim cases [
      | inl (replay, stay) ↦ subst IsClaimed (sym stay) claimed
      | inr (first, a) ↦
          (approved-claims env s request user_id username response s' task fresh claimed a).0
    ]

-- Where no evidence key is claimed twice and each claim is one that a stored decision makes, a request
-- that is answered for the first time adds one decision, under the id of the answer, and the claims
-- that this decision makes; none of their evidence keys was claimed before. The database is again to
-- give a new row an id that no row of its table has.
pub approve_claims_free :
    (env : Surroundings) (s : ReviewStore) (request : DecisionRequest) (user_id : Option ℕ)
    (username : String) (response : DecisionResponse) (s' : ReviewStore)
    → IsFresh env
    → IsClaimed s
    → approve_accounting_review_decision env s request user_id username ≡ done (response, s')
    → response.replayed ≡ false
    → (d : StoredDecision) × (s'.decisions ≡ s.decisions ++ (d ∷ []))
      × (response.decision_id ≡ d.id)
      × (s'.claims ≡ s.claims ++ evidence_claims_for_decision d.decision d.id)
      × All
          (λ c. find_claim c.evidence_key s.claims ≡ none)
          (evidence_claims_for_decision d.decision d.id)
approve_claims_free env s request user_id username response s' fresh claimed h first =
    let (task, found, cases) = approve_done env s request user_id username response s' h in
    elim cases [
      | inl (replay, stay) ↦
          let (d, id, r, answer) = idempotent_replay-IsReplay env s task request response replay in
          let says : response.replayed ≡ true = ap (λ (x : DecisionResponse). x.replayed) answer in
          absurd (cc (sym says ∙ first))
      | inr (none_yet, a) ↦
          let (_, claims, free) =
            approved-claims env s request user_id username response s' task fresh claimed a in
          (
            a.added,
            ap (λ (x : ReviewStore). x.decisions) a.stores,
            ap (λ (x : DecisionResponse). x.decision_id) a.answers,
            claims,
            free,
          )
    ]
