-- ===== src/Review/Approved.antt =====
-- What a successful approval went through.
use portfolio_tracker_public.Prelude.{
  ℕ, ◌≡◌, ◌⊎◌, inl, inr, refl, sym, ◌∙◌, ap, String, List, [], ◌∷◌, ◌++◌, Option, none, some, Bool,
  true, false, not, ◌==◌, string_eq, eq_of_==, option_eq, contains, Bool-cases, Option-cases,
}
use portfolio_tracker_public.Reconcile.Resolve.{
  TaskRow, Store, Resolution, refused, resolved, find_task, decision_types_of,
  resolve_reconciliation_task,
}
use portfolio_tracker_public.Review.Types.{
  DecisionRequest, DecisionResponse, Decision, StoredDecision, EvidenceClaim, ReviewStore,
  ReviewError, not_found, integrity_error, Outcome, done, raised, raise_if, ◌>>=◌, ◌>>◌,
  Surroundings,
}
use portfolio_tracker_public.Review.Decisions.{decision_type_of, build_decision}
use portfolio_tracker_public.Review.Tables.{table_of, resolution_store, load_task}
use portfolio_tracker_public.Review.Approve.{
  resolution_request, idempotent_replay, add_decision, claim_evidence, finish, audit_entry,
  approve_open, answer_or_approve, approve_accounting_review_decision,
}

true_of_not : (b : Bool) → not b ≡ false → b ≡ true
true_of_not true h = refl
true_of_not false h = cc h

-- What a sequence of operations that ends well went through.
pub bind_done {ℓ κ} :
    {A : Type ℓ} {B : Type κ} (m : Outcome A) (f : A → Outcome B) (b : B)
    → (m >>= f) ≡ done b
    → (a : A) × (m ≡ done a) × (f a ≡ done b)
bind_done (done a) f b h = (a, refl, h)
bind_done (raised e) f b h = cc h

pub raise_if_done {ℓ} :
    {B : Type ℓ} (test : Bool) (e : ReviewError) (n : Outcome B) (b : B)
    → (raise_if test e >> n) ≡ done b
    → (test ≡ false) × (n ≡ done b)
raise_if_done true e n b h = cc h
raise_if_done false e n b h = (refl, h)

load_task_done :
    (s : ReviewStore) (id : String) (task : TaskRow)
    → load_task s id ≡ done task
    → find_task id s.tasks ≡ some task
unfolding load_task
load_task_done s id task h = elim (Option-cases (find_task id s.tasks)) [
  | inl e ↦ let bad : raised not_found ≡ done task = rw (load_task, e) at h in cc bad
  | inr (t, e) ↦ let same : done t ≡ done task = rw (load_task, e) at h in e ∙ ap some (cc same)
]

-- The decision's row, and the tables before the task is resolved.
abbrev pub new_row : Surroundings → ReviewStore → Decision → StoredDecision
new_row env s d = record { id = env.new_id (table_of d) s.decisions; decision = d }

abbrev pub with_decision : ReviewStore → StoredDecision → List EvidenceClaim → ReviewStore
with_decision s d claims = record s { decisions = s.decisions ++ (d ∷ []); claims = claims }

pub record IsApproved (env : Surroundings) (s : ReviewStore) (task : TaskRow)
    (request : DecisionRequest) (user_id : Option ℕ) (username : String)
    (response : DecisionResponse) (s' : ReviewStore) : Type 0 where
  pub decision : Decision
  pub added : StoredDecision
  pub is_added : added ≡ new_row env s decision
  pub claims : List EvidenceClaim
  pub row : TaskRow
  pub after : Store
  pub was_open : task.status ≡ "open"
  pub allowed : contains (decision_types_of task.task_type) (decision_type_of request.action) ≡ true
  pub built :
      build_decision env task (s.columns task.task_id) request request.action username
      ≡ done decision
  pub admitted : env.admits decision s.decisions ≡ true
  pub claimed : claim_evidence env s.claims added ≡ done claims
  pub resolves :
      resolve_reconciliation_task
        (resolution_request env task request added username)
        (resolution_store (with_decision s added claims))
      ≡ resolved row after
  pub answers : response ≡ record {
    task_id = row.task_id;
    task_status = "resolved";
    decision_type = decision_type_of request.action;
    decision_id = added.id;
    replayed = false;
  }
  pub stores : s' ≡ record s {
    tasks = after.tasks;
    decisions = s.decisions ++ (added ∷ []);
    claims = claims;
    activity = s.activity ++ (audit_entry env task request added.id user_id ∷ []);
  }

module _ (env : Surroundings) (s : ReviewStore) (request : DecisionRequest) (user_id : Option ℕ)
    (username : String) (response : DecisionResponse) (s' : ReviewStore) where
  finish_done :
      (stored : ReviewStore) (task : TaskRow) (d : StoredDecision) (r : Resolution)
      → finish env stored task request d user_id r ≡ done (response, s')
      → (row : TaskRow) × (after : Store) × (r ≡ resolved row after)
        × (response ≡ record {
          task_id = row.task_id;
          task_status = "resolved";
          decision_type = decision_type_of request.action;
          decision_id = d.id;
          replayed = false;
        })
        × (s' ≡ record stored {
          tasks = after.tasks;
          activity = stored.activity ++ (audit_entry env task request d.id user_id ∷ []);
        })
  unfolding finish
  finish_done stored task d (refused e) h = cc h
  finish_done stored task d (resolved row after) h = (row, after, refl, cc h, cc h)

  add_decision_done :
      (d : Decision) (row : StoredDecision)
      → add_decision env s.decisions d ≡ done row
      → (env.admits d s.decisions ≡ true) × (row ≡ new_row env s d)
  unfolding add_decision
  add_decision_done d row h = elim (Bool-cases (env.admits d s.decisions)) [
    | inl e ↦ let same : done (new_row env s d) ≡ done row = rw e at h in (e, cc same)
    | inr e ↦ let bad : raised integrity_error ≡ done row = rw e at h in cc bad
  ]

  approve_open_done :
      (task : TaskRow)
      → approve_open env s task request user_id username ≡ done (response, s')
      → IsApproved env s task request user_id username response s'
  unfolding approve_open
  approve_open_done task h =
      let (opened, h1) = raise_if_done (not (task.status == "open")) _ _ _ h in
      let (compatible, h2) =
        raise_if_done
          (not (contains (decision_types_of task.task_type) (decision_type_of request.action))) _ _
          _ h1 in
      let (decision, built, h3) =
        bind_done (build_decision env task (s.columns task.task_id) request request.action username)
          _ _ h2 in
      let (d, added, h4) = bind_done (add_decision env s.decisions decision) _ _ h3 in
      let (claims, claimed, h5) = bind_done (claim_evidence env s.claims d) _ _ h4 in
      let (admitted, same) = add_decision_done decision d added in
      let (row, after, resolves, answers, stores) =
        finish_done (with_decision s d claims) task d _ h5 in
      record {
        decision = decision;
        claims = claims;
        row = row;
        after = after;
        was_open = eq_of_== task.status "open" (true_of_not (task.status == "open") opened);
        allowed =
            true_of_not
              (contains (decision_types_of task.task_type) (decision_type_of request.action))
              compatible;
        built = built;
        admitted = admitted;
        added = d;
        is_added = same;
        claimed = claimed;
        resolves = resolves;
        answers = answers;
        stores = stores;
      }

  -- A request that is answered finds its task, and is answered again or approved.
  pub approve_done :
      approve_accounting_review_decision env s request user_id username ≡ done (response, s')
      → (task : TaskRow) × (find_task request.task_id s.tasks ≡ some task)
        × (((idempotent_replay env s task request ≡ done (some response)) × (s' ≡ s))
            ⊎ ((idempotent_replay env s task request ≡ done none)
                × IsApproved env s task request user_id username response s'))
  unfolding approve_accounting_review_decision
  approve_done h =
      let (task, loaded, h1) = bind_done (load_task s request.task_id) _ _ h in
      let (replay, replayed, h2) = bind_done (idempotent_replay env s task request) _ _ h1 in
      (task, load_task_done s request.task_id task loaded, answered task replay replayed h2)
    where
      answered :
          (task : TaskRow) (replay : Option DecisionResponse)
          → idempotent_replay env s task request ≡ done replay
          → answer_or_approve env s task request user_id username replay ≡ done (response, s')
          → ((idempotent_replay env s task request ≡ done (some response)) × (s' ≡ s))
            ⊎ ((idempotent_replay env s task request ≡ done none)
                × IsApproved env s task request user_id username response s')
      answered task none e h = inr (e, approve_open_done task h)
      answered task (some again) e h =
          let same : again ≡ response = cc h in
          let stay : s ≡ s' = cc h in
          inl (e ∙ ap (λ (x : DecisionResponse). done (some x)) same, sym stay)
