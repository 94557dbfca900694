-- ===== src/Review/Refinement.antt =====
-- What the review promises of a task, without its tables: it is waiting until it is decided, once.
use mathlib.Core.Path.{subst}
use portfolio_tracker_public.Prelude.{
  ℕ, ◌≡◌, inl, inr, refl, sym, ◌∙◌, ap, String, Option, none, some, Bool, true, false, ◌==◌,
  eq_of_==, string_eq, if◌then◌else◌, Bool-cases,
}
use portfolio_tracker_public.Reconcile.Resolve.{TaskRow, find_task}
use portfolio_tracker_public.Reconcile.Lifecycle.{find_task_id, find_task-close_task_other}
use portfolio_tracker_public.Review.Types.{
  DecisionRequest, DecisionResponse, ReviewStore, done, Surroundings,
}
use portfolio_tracker_public.Review.Decisions.{decision_type_of}
use portfolio_tracker_public.Review.Approve.{resolution_request, approve_accounting_review_decision}
use portfolio_tracker_public.Review.Approved.{approve_done}
use portfolio_tracker_public.Review.Again.{approved-closes}
use portfolio_tracker_public.Review.Replay.{idempotent_replay-IsReplay}

-- How a task stands: not known, waiting for a decision, decided by one, or neither.
pub data Standing : Type 0 where
  unlisted waiting neither : Standing
  decided : String → ℕ → Standing

abbrev decided_by : Option String → Option ℕ → Standing
decided_by none id = neither
decided_by (some type) none = neither
decided_by (some type) (some id) = decided type id

abbrev standing_of : TaskRow → Standing
standing_of t =
    if t.status == "open"
    then waiting
    else if t.status == "resolved"
    then decided_by t.resolved_by_decision_type t.resolved_by_decision_id
    else neither

abbrev standing_or : Option TaskRow → Standing
standing_or none = unlisted
standing_or (some t) = standing_of t

-- What is seen of the tables.
abbrev pub view : ReviewStore → String → Standing
view s id = standing_or (find_task id s.tasks)

-- The two ways in which a request for a decision of a type about a task can be answered: a waiting
-- task is decided and no other changes, or the task was so decided and nothing changes.
pub data Answers (v : String → Standing) (task_id type : String)
    : ℕ → Bool → (String → Standing) → Type 0 where
  decide :
      {id : ℕ} {v' : String → Standing}
      → v task_id ≡ waiting
      → v' task_id ≡ decided type id
      → ((t : String) → (task_id == t) ≡ false → v' t ≡ v t)
      → Answers v task_id type id false v'
  again :
      {id : ℕ} {v' : String → Standing}
      → v task_id ≡ decided type id
      → ((t : String) → v' t ≡ v t)
      → Answers v task_id type id true v'

standing_of-open : (t : TaskRow) → t.status ≡ "open" → standing_of t ≡ waiting
unfolding string_eq
standing_of-open t h = rw h refl

standing_of-resolved :
    (t : TaskRow) (type : String) (id : ℕ)
    → t.status ≡ "resolved"
    → t.resolved_by_decision_type ≡ some type
    → t.resolved_by_decision_id ≡ some id
    → standing_of t ≡ decided type id
unfolding string_eq
standing_of-resolved t type id h e f = rw (h, e, f) refl

-- Every answered request is one of the two ways of the abstract review, on what is seen of the tables:
-- for the task of the request, the type of its action, and the decision and repetition of the answer.
pub approve-Answers :
    (env : Surroundings) (s : ReviewStore) (request : DecisionRequest) (user_id : Option ℕ)
    (username : String) (response : DecisionResponse) (s' : ReviewStore)
    → approve_accounting_review_decision env s request user_id username ≡ done (response, s')
    → Answers
        (view s)
        request.task_id
        (decision_type_of request.action)
        response.decision_id
        response.replayed
        (view s')
unfolding string_eq
approve-Answers env s request user_id username response s' h =
    let (task, found, cases) = approve_done env s request user_id username response s' h in
    elim cases [
      | inl (replay, stay) ↦
          let (d, id, r, answer) = idempotent_replay-IsReplay env s task request response replay in
          let before : view s request.task_id ≡ decided (decision_type_of request.action) id =
            ap standing_or found ∙ standing_of-resolved task _ id r.status r.type r.reference in
          subst
            (λ (x : DecisionResponse).
              Answers (view s) request.task_id (decision_type_of request.action) x.decision_id
                x.replayed (view s'))
            (sym answer) (again before (λ t. ap (λ (x : ReviewStore). view x t) stay))
      | inr (first, a) ↦
          let (closes, _, tasks) =
            approved-closes env s task request user_id username response s' found a in
          let id = find_task_id request.task_id s.tasks task found in
          subst
            (λ (x : DecisionResponse).
              Answers (view s) request.task_id (decision_type_of request.action) x.decision_id
                x.replayed (view s'))
            (sym a.answers)
            (decide (ap standing_or found ∙ standing_of-open task a.was_open)
              (ap standing_or closes)
              (λ t differ.
                ap (λ ts. standing_or (find_task t ts)) tasks
                ∙ ap standing_or (
                    find_task-close_task_other
                      (resolution_request env task request a.added username) t s.tasks
                      (ap (λ i. i == t) id ∙ differ))))
    ]

answered_decided :
    {v v' : String → Standing} {task type : String} {id : ℕ} {replayed : Bool}
    → Answers v task type id replayed v'
    → v' task ≡ decided type id
answered_decided (decide before after others) = after
answered_decided {task} (again before same) = same task ∙ before

decided_stays :
    {v v' : String → Standing} {task type : String} {id : ℕ} {replayed : Bool} (t kind : String)
    (i : ℕ)
    → Answers v task type id replayed v'
    → v t ≡ decided kind i
    → v' t ≡ decided kind i
decided_stays t kind i (again before same) h = same t ∙ h
decided_stays {v} {task} t kind i (decide before after others) h = elim (Bool-cases (task == t)) [
  | inr differ ↦ others t differ ∙ h
  | inl same ↦
      let e = eq_of_== task t same in
      let clash : waiting ≡ decided kind i = sym before ∙ ap v e ∙ h in absurd (cc clash)
]

-- The tables after any number of answered requests.
pub data Reviewed (env : Surroundings) (s : ReviewStore) : ReviewStore → Type 0 where
  unchanged : Reviewed env s s
  answered :
      {m s' : ReviewStore} (request : DecisionRequest) (user_id : Option ℕ) (username : String)
      (response : DecisionResponse)
      → Reviewed env s m
      → approve_accounting_review_decision env m request user_id username ≡ done (response, s')
      → Reviewed env s s'

reviewed_stays :
    (env : Surroundings) (s : ReviewStore) {s' : ReviewStore} (t kind : String) (i : ℕ)
    → Reviewed env s s'
    → view s t ≡ decided kind i
    → view s' t ≡ decided kind i
reviewed_stays env s t kind i unchanged h = h
reviewed_stays env s t kind i (answered {m} {s'} request user_id username response path e) h =
    decided_stays t kind i (approve-Answers env m request user_id username response s' e)
      (reviewed_stays env s t kind i path h)

-- Once a request is answered, its task is decided, by a decision of the type of its action with the id
-- of the answer, and stays so whatever requests are answered after it.
pub approve_settles :
    (env : Surroundings) (s : ReviewStore) (request : DecisionRequest) (user_id : Option ℕ)
    (username : String) (response : DecisionResponse) (s' s'' : ReviewStore)
    → approve_accounting_review_decision env s request user_id username ≡ done (response, s')
    → Reviewed env s' s''
    → view s'' request.task_id ≡ decided (decision_type_of request.action) response.decision_id
approve_settles env s request user_id username response s' s'' h path =
    reviewed_stays env s' request.task_id (decision_type_of request.action) response.decision_id
      path (answered_decided (approve-Answers env s request user_id username response s' h))
