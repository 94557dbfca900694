-- ===== src/Review/Replay.antt =====
-- Sending a request again.
use portfolio_tracker_public.Prelude.{
  ℕ, ◌≡◌, inl, inr, refl, ◌∙◌, ap, String, Option, none, some, true, ◌==◌, ==-refl, string_eq,
  eq_of_==, option_eq, Bool-cases, Option-cases,
}
use portfolio_tracker_public.Reconcile.Resolve.{TaskRow, find_task}
use portfolio_tracker_public.Review.Types.{
  DecisionRequest, DecisionResponse, StoredDecision, ReviewStore, conflict, done, raised,
  Surroundings,
}
use portfolio_tracker_public.Review.Decisions.{decision_type_of, decision_key}
use portfolio_tracker_public.Review.Tables.{
  decision_key_value, decision_key_prefix, load_task, find_stored,
}
use portfolio_tracker_public.Review.Approve.{
  idempotent_replay, replay_by, approve_accounting_review_decision,
}

-- The task was closed by the stored decision `d`, which the request made.
pub record IsReplay (env : Surroundings) (s : ReviewStore) (task : TaskRow)
    (request : DecisionRequest) (d : StoredDecision) (id : ℕ) : Type 0 where
  pub status : task.status ≡ "resolved"
  pub type : task.resolved_by_decision_type ≡ some (decision_type_of request.action)
  pub reference : task.resolved_by_decision_id ≡ some id
  pub found : find_stored (decision_type_of request.action) id s.decisions ≡ some d
  pub key :
      decision_key_value d.decision
      ≡ decision_key env (decision_key_prefix request.action) task request

abbrev pub replay_response : TaskRow → DecisionRequest → ℕ → DecisionResponse
replay_response task request id = record {
  task_id = task.task_id;
  task_status = "resolved";
  decision_type = decision_type_of request.action;
  decision_id = id;
  replayed = true;
}

-- A closed task with its decision answers the request that closed it.
pub replay_closed :
    (env : Surroundings) (s : ReviewStore) (task : TaskRow) (request : DecisionRequest)
    (d : StoredDecision) (id : ℕ)
    → IsReplay env s task request d id
    → idempotent_replay env s task request ≡ done (some (replay_response task request id))
unfolding idempotent_replay replay_by
replay_closed env s task request d id r =
    let resolved_test : (task.status == "resolved") ≡ true =
      ap (λ x. x == "resolved") r.status ∙ ==-refl {A = String} "resolved" in
    let type_test : (task.resolved_by_decision_type == some (decision_type_of request.action))
        ≡ true =
      ap (λ x. x == some (decision_type_of request.action)) r.type
      ∙ ==-refl {A = Option String} (some (decision_type_of request.action)) in
    let key_test : (decision_key_value d.decision
          == decision_key env (decision_key_prefix request.action) task request)
        ≡ true =
      ap (λ x. x == decision_key env (decision_key_prefix request.action) task request) r.key
      ∙ ==-refl (decision_key env (decision_key_prefix request.action) task request) in
    rw (resolved_test, type_test, r.reference) (rw r.found (rw key_test refl))

pub approve_replays :
    (env : Surroundings) (s : ReviewStore) (task : TaskRow) (request : DecisionRequest)
    (user_id : Option ℕ) (username : String) (response : DecisionResponse)
    → find_task request.task_id s.tasks ≡ some task
    → idempotent_replay env s task request ≡ done (some response)
    → approve_accounting_review_decision env s request user_id username ≡ done (response, s)
unfolding approve_accounting_review_decision load_task
approve_replays env s task request user_id username response found replay =
    rw (load_task, found) (rw replay refl)

replay_by_inv :
    (env : Surroundings) (task : TaskRow) (request : DecisionRequest) (id : ℕ)
    (o : Option StoredDecision) (response : DecisionResponse)
    → replay_by env task request id o ≡ done (some response)
    → (d : StoredDecision) × (o ≡ some d)
      × (decision_key_value d.decision
          ≡ decision_key env (decision_key_prefix request.action) task request)
      × (response ≡ replay_response task request id)
unfolding replay_by
replay_by_inv env task request id none response h = cc h
replay_by_inv env task request id (some d) response h =
    let key = decision_key env (decision_key_prefix request.action) task request in
    elim (Bool-cases (decision_key_value d.decision == key)) [
      | inl e ↦
          let same : done (some (replay_response task request id)) ≡ done (some response) =
            rw e at h in
          (d, refl, eq_of_== (decision_key_value d.decision) key e, cc same)
      | inr e ↦
          let bad : raised
                (conflict "idempotency key already used for a different accounting payload")
              ≡ done (some response) =
            rw e at h in
          cc bad
    ]

pub idempotent_replay-IsReplay :
    (env : Surroundings) (s : ReviewStore) (task : TaskRow) (request : DecisionRequest)
    (response : DecisionResponse)
    → idempotent_replay env s task request ≡ done (some response)
    → (d : StoredDecision) × (id : ℕ) × IsReplay env s task request d id
      × (response ≡ replay_response task request id)
unfolding idempotent_replay
idempotent_replay-IsReplay env s task request response h =
    let dt = decision_type_of request.action in
    elim (Bool-cases (task.status == "resolved")) [
      | inr e ↦ let bad : done none ≡ done (some response) = rw e at h in cc bad
      | inl e ↦ elim (Bool-cases (task.resolved_by_decision_type == some dt)) [
        | inr f ↦
            let bad : raised
                  (conflict "idempotency key already used for a different accounting action")
                ≡ done (some response) =
              rw (e, f) at h in
            cc bad
        | inl f ↦ elim (Option-cases task.resolved_by_decision_id) [
          | inl g ↦
              let bad : raised
                    (conflict "resolved accounting task is missing a durable decision reference")
                  ≡ done (some response) =
                rw (e, f, g) at h in
              cc bad
          | inr (id, g) ↦
              let by : replay_by env task request id (find_stored dt id s.decisions)
                  ≡ done (some response) =
                rw (e, f, g) at h in
              let (d, found, key, answer) =
                replay_by_inv env task request id (find_stored dt id s.decisions) response by in
              (
                d,
                id,
                record {
                  status = eq_of_== task.status "resolved" e;
                  type = eq_of_== task.resolved_by_decision_type (some dt) f;
                  reference = g;
                  found = found;
                  key = key;
                },
                answer,
              )
        ]
      ]
    ]
