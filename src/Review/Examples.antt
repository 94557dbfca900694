-- ===== src/Review/Examples.antt =====
-- A run: a withdrawal that the reconciliation could not explain is a personal one.
use portfolio_tracker_public.Prelude.{
  ℕ, ◌≡◌, ◌↔◌, refl, [], ◌∷◌, ◌++◌, none, some, true, false, string_eq, option_eq, All,
}
use portfolio_tracker_public.Prelude.Int.{pos}
use portfolio_tracker_public.Reconcile.Resolve.{
  TaskRow, find_task, decision_types_of, find_decision, close_task, resolve_by, resolve_found,
  resolve_reconciliation_task,
}
use portfolio_tracker_public.Review.Types.{
  unknown, DecisionResponse, StoredDecision, ReviewStore, Outcome, done, raised, conflict,
  integrity_error,
}
use portfolio_tracker_public.Review.Decisions.{
  request_fingerprint, decision_key, personal_withdrawal_decision, build_decision,
}
use portfolio_tracker_public.Review.Tables.{
  find_stored, load_task, evidence_claims_for_decision, find_claim, missing_claims, flush_claims,
  claim_decision_evidence, refresh_accounting_evidence_claims,
}
use portfolio_tracker_public.Review.Approve.{
  add_decision, claim_evidence, replay_by, idempotent_replay, finish, approve_open,
  approve_accounting_review_decision,
}
use portfolio_tracker_public.Prelude.Dict.{get}
use portfolio_tracker_public.Review.Values.{source_evidence_key}
use portfolio_tracker_public.Review.Replay.{IsReplay, replay_response}
use portfolio_tracker_public.Review.Again.{approve_again, approve_resolved_iff}
use portfolio_tracker_public.Review.Claimed.{IsClaimed}
use portfolio_tracker_public.Review.Claims.{approve-IsClaimed, approve_claims_free}
use portfolio_tracker_public.Review.Refinement.{
  Answers, view, decided, unchanged, answered, approve-Answers, approve_settles,
}
use portfolio_tracker_public.Review.Samples.{
  surroundings, surroundings-IsFresh, waiting_task, store_before, withdrawal_request,
}

abbrev first_response : DecisionResponse
first_response = record {
  task_id = "task-1";
  task_status = "resolved";
  decision_type = "accounting_external_cashflow_classification";
  decision_id = 1;
  replayed = false;
}

abbrev store_of : Outcome (DecisionResponse × ReviewStore) → ReviewStore
store_of (done (response, s)) = s
store_of (raised e) = store_before

abbrev store_after : ReviewStore
store_after =
    store_of (
      approve_accounting_review_decision surroundings store_before withdrawal_request (some 2)
        "ann")

approve-first :
    approve_accounting_review_decision surroundings store_before withdrawal_request (some 2) "ann"
    ≡ done (first_response, store_after)
unfolding approve_accounting_review_decision load_task find_task idempotent_replay string_eq
    option_eq approve_open decision_types_of build_decision personal_withdrawal_decision
    source_evidence_key get add_decision claim_evidence refresh_accounting_evidence_claims
    claim_decision_evidence missing_claims flush_claims evidence_claims_for_decision find_claim
    finish resolve_reconciliation_task resolve_found resolve_by find_decision close_task
approve-first = refl

-- The evidence of the request is claimed by another decision: with the trigger the row is refused, and
-- without it the loop over the claims finds the conflict.
abbrev claimed_before : ReviewStore
claimed_before = record store_before {
  claims =
      record {
        evidence_key = "binance:withdrawal:1";
        source_table = "accounting_transfer_links";
        source_id = 9;
        claim_role = "transfer_from";
      }
      ∷ [];
}

approve_claimed-runs :
    (approve_accounting_review_decision surroundings claimed_before withdrawal_request none "ann"
      ≡ raised integrity_error)
    × (approve_accounting_review_decision
          (record surroundings { has_triggers = false })
          claimed_before
          withdrawal_request
          none
          "ann"
        ≡ raised (conflict "accounting evidence already claimed: binance:withdrawal:1"))
unfolding approve_accounting_review_decision load_task find_task idempotent_replay string_eq
    option_eq approve_open decision_types_of build_decision personal_withdrawal_decision
    source_evidence_key get add_decision claim_evidence refresh_accounting_evidence_claims
    claim_decision_evidence missing_claims flush_claims evidence_claims_for_decision find_claim
    finish resolve_reconciliation_task resolve_found resolve_by find_decision close_task
approve_claimed-runs = (refl, refl)

approve_again_example :
    approve_accounting_review_decision surroundings store_after withdrawal_request none "bob"
    ≡ done (record first_response { replayed = true }, store_after)
approve_again_example =
    approve_again surroundings store_before withdrawal_request (some 2) "ann" first_response
      store_after none "bob" surroundings-IsFresh approve-first

-- The same key with another action is refused.
approve-other_action :
    approve_accounting_review_decision surroundings store_after
      (record withdrawal_request { action = unknown })
      none
      "bob"
    ≡ raised (conflict "idempotency key already used for a different accounting payload")
unfolding approve_accounting_review_decision load_task find_task idempotent_replay string_eq
    option_eq approve_open decision_types_of build_decision personal_withdrawal_decision
    source_evidence_key get add_decision claim_evidence refresh_accounting_evidence_claims
    claim_decision_evidence missing_claims flush_claims evidence_claims_for_decision find_claim
    finish resolve_reconciliation_task resolve_found resolve_by find_decision close_task replay_by
    find_stored decision_key request_fingerprint
approve-other_action = refl

approve-second :
    approve_accounting_review_decision surroundings store_after withdrawal_request none "bob"
    ≡ done (record first_response { replayed = true }, store_after)
unfolding approve_accounting_review_decision load_task find_task idempotent_replay string_eq
    option_eq approve_open decision_types_of build_decision personal_withdrawal_decision
    source_evidence_key get add_decision claim_evidence refresh_accounting_evidence_claims
    claim_decision_evidence missing_claims flush_claims evidence_claims_for_decision find_claim
    finish resolve_reconciliation_task resolve_found resolve_by find_decision close_task replay_by
    find_stored decision_key request_fingerprint
approve-second = refl

abbrev closed_task : TaskRow
closed_task = record waiting_task {
  status = "resolved";
  resolved_at = some (pos 7);
  resolved_by = some "ann";
  resolved_by_decision_type = some "accounting_external_cashflow_classification";
  resolved_by_decision_id = some 1;
}

find_task-after : find_task "task-1" store_after.tasks ≡ some closed_task
unfolding approve_accounting_review_decision load_task find_task idempotent_replay string_eq
    option_eq approve_open decision_types_of build_decision personal_withdrawal_decision
    source_evidence_key get add_decision claim_evidence refresh_accounting_evidence_claims
    claim_decision_evidence missing_claims flush_claims evidence_claims_for_decision find_claim
    finish resolve_reconciliation_task resolve_found resolve_by find_decision close_task replay_by
    find_stored decision_key request_fingerprint
find_task-after = refl

approve_resolved_iff_example :
    (approve_accounting_review_decision surroundings store_after withdrawal_request none "bob"
      ≡ done (record first_response { replayed = true }, store_after))
    ↔ ((d : StoredDecision) × (id : ℕ) × IsReplay surroundings store_after closed_task
          withdrawal_request d id
        × (record first_response { replayed = true }
            ≡ replay_response closed_task withdrawal_request id)
        × (store_after ≡ store_after))
approve_resolved_iff_example =
    approve_resolved_iff surroundings store_after withdrawal_request none "bob"
      (record first_response { replayed = true }) store_after closed_task find_task-after refl

store_before-IsClaimed : IsClaimed store_before
store_before-IsClaimed = record { distinct = tt; owned = tt }

approve-IsClaimed_example : IsClaimed store_after
approve-IsClaimed_example =
    approve-IsClaimed surroundings store_before withdrawal_request (some 2) "ann" first_response
      store_after surroundings-IsFresh store_before-IsClaimed approve-first

approve_claims_free_example :
    (d : StoredDecision) × (store_after.decisions ≡ [] ++ (d ∷ []))
    × (1 ≡ d.id)
    × (store_after.claims ≡ [] ++ evidence_claims_for_decision d.decision d.id)
    × All (λ c. find_claim c.evidence_key [] ≡ none) (evidence_claims_for_decision d.decision d.id)
approve_claims_free_example =
    approve_claims_free surroundings store_before withdrawal_request (some 2) "ann" first_response
      store_after surroundings-IsFresh store_before-IsClaimed approve-first refl

approve-Answers_example :
    Answers
      (view store_before)
      "task-1"
      "accounting_external_cashflow_classification"
      1
      false
      (view store_after)
approve-Answers_example =
    approve-Answers surroundings store_before withdrawal_request (some 2) "ann" first_response
      store_after approve-first

approve_settles_example :
    view store_after "task-1" ≡ decided "accounting_external_cashflow_classification" 1
approve_settles_example =
    approve_settles surroundings store_before withdrawal_request (some 2) "ann" first_response
      store_after store_after approve-first
      (answered withdrawal_request none "bob" (record first_response { replayed = true }) unchanged
        approve-second)
