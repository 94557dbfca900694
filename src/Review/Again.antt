-- ===== src/Review/Again.antt =====
-- Requests about a task that is resolved.
use mathlib.Core.Path.{subst}
use portfolio_tracker_public.Prelude.{
  ℕ, ◌≡◌, ◌↔◌, inl, inr, refl, sym, ◌∙◌, ap, String, Option, none, some, true,
}
use portfolio_tracker_public.Reconcile.Resolve.{TaskRow, Store, find_task, closed, close_task}
use portfolio_tracker_public.Reconcile.Lifecycle.{
  find_task_id, resolve_reconciliation_task_iff, find_task-close_task,
}
use portfolio_tracker_public.Review.Types.{
  DecisionRequest, DecisionResponse, StoredDecision, ReviewStore, done, Surroundings,
}
use portfolio_tracker_public.Review.Decisions.{decision_type_of, decision_key}
use portfolio_tracker_public.Review.Tables.{
  table_of, decision_key_value, resolution_store, find_stored,
}
use portfolio_tracker_public.Review.Approve.{resolution_request, approve_accounting_review_decision}
use portfolio_tracker_public.Review.Approved.{IsApproved, approve_done, with_decision}
use portfolio_tracker_public.Review.Keyed.{IsFresh, build_decision-IsKeyed, find_stored-append}
use portfolio_tracker_public.Review.Replay.{
  IsReplay, replay_response, replay_closed, idempotent_replay-IsReplay, approve_replays,
}

module _ (env : Surroundings) (s : ReviewStore) (task : TaskRow) (request : DecisionRequest)
    (user_id : Option ℕ) (username : String) (response : DecisionResponse) (s' : ReviewStore) where
  -- The task as the approval leaves it.
  abbrev pub closing : StoredDecision → TaskRow
  closing d = closed (resolution_request env task request d username) task

  pub approved-closes :
      find_task request.task_id s.tasks ≡ some task
      → (a : IsApproved env s task request user_id username response s')
      → (find_task request.task_id s'.tasks ≡ some (closing a.added))
        × (a.row.task_id ≡ task.task_id)
        × (s'.tasks ≡ close_task (resolution_request env task request a.added username) s.tasks)
  approved-closes found a =
      let r = resolution_request env task request a.added username in
      let at = resolution_store (with_decision s a.added a.claims) in
      let id = find_task_id request.task_id s.tasks task found in
      let own = subst (λ i. find_task i s.tasks ≡ some task) (sym id) found in
      let (t, resolvable, row, after) =
        (resolve_reconciliation_task_iff r at a.row a.after).0 a.resolves in
      let same : t ≡ task = cc (sym resolvable.found ∙ own) in
      let closes = find_task-close_task r s.tasks task own in
      let tasks : s'.tasks ≡ close_task r s.tasks =
        ap (λ (x : ReviewStore). x.tasks) a.stores ∙ ap (λ (x : Store). x.tasks) after in
      (
        ap (λ i. find_task i s'.tasks) (sym id) ∙ ap (find_task task.task_id) tasks ∙ closes,
        ap (λ (x : TaskRow). x.task_id) row ∙ ap (λ (x : TaskRow). x.task_id) same,
        tasks,
      )

  approved-IsReplay :
      IsFresh env
      → find_task request.task_id s.tasks ≡ some task
      → (a : IsApproved env s task request user_id username response s')
      → IsReplay env s' (closing a.added) request a.added a.added.id
        × (find_task request.task_id s'.tasks ≡ some (closing a.added))
        × (record response { replayed = true }
            ≡ replay_response (closing a.added) request a.added.id)
  unfolding decision_key
  approved-IsReplay fresh found a =
      let dt = decision_type_of request.action in
      let (table, key) =
        build_decision-IsKeyed env task (s.columns task.task_id) request username a.decision
          request.action a.built in
      let new_id =
        ap (λ (x : StoredDecision). x.id) a.is_added ∙ ap (λ t. env.new_id t s.decisions) table in
      let same = ap (λ (x : StoredDecision). x.decision) a.is_added in
      let unused : find_stored dt a.added.id s.decisions ≡ none =
        ap (λ i. find_stored dt i s.decisions) new_id ∙ fresh dt s.decisions in
      let stored =
        ap (λ (x : ReviewStore). find_stored dt a.added.id x.decisions) a.stores
        ∙ find_stored-append dt a.added.id s.decisions a.added unused (ap table_of same ∙ table)
            refl in
      let (closes, row, _) = approved-closes found a in
      (
        record {
          status = refl;
          type = refl;
          reference = refl;
          found = stored;
          key = ap decision_key_value same ∙ key;
        },
        closes,
        ap (λ (x : DecisionResponse). record x { replayed = true }) a.answers
            ∙ ap
                (λ i. record {
                  task_id = i;
                  task_status = "resolved";
                  decision_type = dt;
                  decision_id = a.added.id;
                  replayed = true;
                })
                row,
      )

-- A request that is sent again after it was answered is answered with the same task and decision, by
-- whoever it is sent, says that it is a repetition, and changes nothing; provided that the database
-- gives a new row an id that no row of its table has.
pub approve_again :
    (env : Surroundings) (s : ReviewStore) (request : DecisionRequest) (user_id : Option ℕ)
    (username : String) (response : DecisionResponse) (s' : ReviewStore) (other_id : Option ℕ)
    (other_name : String)
    → IsFresh env
    → approve_accounting_review_decision env s request user_id username ≡ done (response, s')
    → approve_accounting_review_decision env s' request other_id other_name
      ≡ done (record response { replayed = true }, s')
approve_again env s request user_id username response s' other_id other_name fresh h =
    let (task, found, cases) = approve_done env s request user_id username response s' h in
    elim cases [
      | inl (replay, stay) ↦
          let (d, id, r, answer) = idempotent_replay-IsReplay env s task request response replay in
          let says : response ≡ record response { replayed = true } =
            answer ∙ ap (λ (x : DecisionResponse). record x { replayed = true }) (sym answer) in
          let same = approve_replays env s task request other_id other_name response found replay in
          subst
            (λ (x : ReviewStore).
              approve_accounting_review_decision env x request other_id other_name
              ≡ done (record response { replayed = true }, x))
            (sym stay) (same ∙ ap (λ (x : DecisionResponse). done (x, s)) says)
      | inr (first, a) ↦
          let (r, closes, answer) =
            approved-IsReplay env s task request user_id username response s' fresh found a in
          let after = closing env s task request user_id username response s' a.added in
          approve_replays env s' after request other_id other_name
            (record response { replayed = true }) closes
            (replay_closed env s' after request a.added a.added.id r
              ∙ ap (λ (x : DecisionResponse). done (some x)) (sym answer))
    ]

-- A request about a task that is resolved is answered exactly if the task names the type of the
-- request's action and a stored decision with the request's key; the answer is that decision, and
-- nothing changes. Any other is refused.
pub approve_resolved_iff :
    (env : Surroundings) (s : ReviewStore) (request : DecisionRequest) (user_id : Option ℕ)
    (username : String) (response : DecisionResponse) (s' : ReviewStore) (task : TaskRow)
    → find_task request.task_id s.tasks ≡ some task
    → task.status ≡ "resolved"
    → (approve_accounting_review_decision env s request user_id username ≡ done (response, s')) ↔ (
        (d : StoredDecision) × (id : ℕ) × IsReplay env s task request d id
        × (response ≡ replay_response task request id)
        × (s' ≡ s))
approve_resolved_iff env s request user_id username response s' task found resolved = (
  λ h.
      let (t, at, cases) = approve_done env s request user_id username response s' h in
      let same : t ≡ task = cc (sym at ∙ found) in
      elim cases [
        | inl (replay, stay) ↦
            let (d, id, r, answer) = idempotent_replay-IsReplay env s t request response replay in
            subst
              (λ (x : TaskRow).
                (d : StoredDecision) × (id : ℕ) × IsReplay env s x request d id
                × (response ≡ replay_response x request id)
                × (s' ≡ s))
              same (d, id, r, answer, stay)
        | inr (first, a) ↦
            let clash : "open" ≡ "resolved" =
              sym a.was_open ∙ ap (λ (x : TaskRow). x.status) same ∙ resolved in
            absurd (cc clash)
      ],
  λ (d, id, r, answer, stay).
      let again =
        approve_replays env s task request user_id username (replay_response task request id) found
          (replay_closed env s task request d id r) in
      again
      ∙ ap (λ (x : DecisionResponse). done (x, s)) (sym answer)
      ∙ ap (λ (x : ReviewStore). done (response, x)) (sym stay),
)
