-- ===== src/Reconcile/Lifecycle.antt =====
-- The life of a task: open, then resolved by a decision about it, once.
use mathlib.Core.Option.{some-injective}
use portfolio_tracker_public.Prelude.{
  String, List, [], ◌∷◌, Option, none, some, true, false, ◌==◌, string_eq, option_eq, contains, ◌≡◌,
  refl, sym, ◌∙◌, ap, ◌↔◌, Bool-cases, inl, inr, eq_of_==, ==-refl,
}
use portfolio_tracker_public.Reconcile.Resolve.{
  TaskRow, DecisionRow, Store, task_not_open, type_not_supported, type_not_allowed,
  decision_not_active, other_task, refused, resolved, Request, decision_models, decision_types_of,
  find_task, find_decision, closed, close_task, resolve_by, resolve_found,
  resolve_reconciliation_task,
}

-- The task may be resolved by the request: it is the open task of that id, and the request names an
-- active decision about it, of a type that its own type allows.
pub record IsResolvable (r : Request) (s : Store) (task : TaskRow) : Type 0 where
  pub found : find_task r.task_id s.tasks ≡ some task
  pub is_open : task.status ≡ "open"
  pub supported : contains decision_models r.decision_type ≡ true
  pub allowed : contains (decision_types_of task.task_type) r.decision_type ≡ true
  pub decided :
      (d : DecisionRow) × (find_decision r.decision_type r.decision_id s.decisions ≡ some d)
      × (d.status ≡ "active")
      × (d.review_task_id ≡ some task.task_id)

abbrev after : Request → Store → Store
after r s = record s { tasks = close_task r s.tasks }

resolve_by-eq_resolved :
    (r : Request) (s : Store) (task : TaskRow) (o : Option DecisionRow) (t : TaskRow) (s' : Store)
    → resolve_by r s task o ≡ resolved t s'
    → ((d : DecisionRow) × (o ≡ some d)
        × (d.status ≡ "active")
        × (d.review_task_id ≡ some task.task_id))
      × (t ≡ closed r task)
      × (s' ≡ after r s)
unfolding resolve_by
resolve_by-eq_resolved r s task none t s' h = cc h
resolve_by-eq_resolved r s task (some d) t s' h = elim (Bool-cases (d.status == "active")) [
  | inl a ↦ elim (Bool-cases (d.review_task_id == some task.task_id)) [
    | inl b ↦
        let e : resolved (closed r task) (after r s) ≡ resolved t s' = rw (a, b) at h in
        (
          (d, refl, eq_of_== d.status "active" a, eq_of_== d.review_task_id (some task.task_id) b),
          cc e,
          cc e,
        )
    | inr b ↦ let e : refused other_task ≡ resolved t s' = rw (a, b) at h in cc e
  ]
  | inr a ↦ let e : refused decision_not_active ≡ resolved t s' = rw a at h in cc e
]

resolve_found-eq_resolved :
    (r : Request) (s : Store) (o : Option TaskRow) (t : TaskRow) (s' : Store)
    → o ≡ find_task r.task_id s.tasks
    → resolve_found r s o ≡ resolved t s'
    → (task : TaskRow) × IsResolvable r s task × (t ≡ closed r task) × (s' ≡ after r s)
unfolding resolve_found
resolve_found-eq_resolved r s none t s' f h = cc h
resolve_found-eq_resolved r s (some task) t s' f h = elim (Bool-cases (task.status == "open")) [
  | inr a ↦ let e : refused task_not_open ≡ resolved t s' = rw a at h in cc e
  | inl a ↦ elim (Bool-cases (contains decision_models r.decision_type)) [
    | inr b ↦ let e : refused type_not_supported ≡ resolved t s' = rw (a, b) at h in cc e
    | inl b ↦ elim (Bool-cases (contains (decision_types_of task.task_type) r.decision_type)) [
      | inr c ↦ let e : refused type_not_allowed ≡ resolved t s' = rw (a, b, c) at h in cc e
      | inl c ↦
          let decision = find_decision r.decision_type r.decision_id s.decisions in
          let e : resolve_by r s task decision ≡ resolved t s' = rw (a, b, c) at h in
          let (decided, same, store) = resolve_by-eq_resolved r s task decision t s' e in
          (
            task,
            record {
              found = sym f;
              is_open = eq_of_== task.status "open" a;
              supported = b;
              allowed = c;
              decided = decided;
            },
            same,
            store,
          )
    ]
  ]
]

resolvable_succeeds :
    (r : Request) (s : Store) (task : TaskRow)
    → IsResolvable r s task
    → resolve_reconciliation_task r s ≡ resolved (closed r task) (after r s)
unfolding resolve_reconciliation_task resolve_found resolve_by
resolvable_succeeds r s task h =
    let (d, found, active, about) = h.decided in
    let open_test : (task.status == "open") ≡ true =
      ap (λ x. x == "open") h.is_open ∙ ==-refl {A = String} "open" in
    let active_test : (d.status == "active") ≡ true =
      ap (λ x. x == "active") active ∙ ==-refl {A = String} "active" in
    let about_test : (d.review_task_id == some task.task_id) ≡ true =
      ap (λ x. x == some task.task_id) about ∙ ==-refl {A = Option String} (some task.task_id) in
    rw (h.found, open_test, h.supported, h.allowed, found, active_test, about_test) refl

-- A task is resolved exactly by a request that finds it open and names an active decision about it,
-- of a type that its own type allows; the result is the task closed by the request, and the store
-- with that one task closed. Any other request is refused and gives no store.
pub resolve_reconciliation_task_iff :
    (r : Request) (s : Store) (t : TaskRow) (s' : Store)
    → (resolve_reconciliation_task r s ≡ resolved t s') ↔ (
        (task : TaskRow) × IsResolvable r s task
        × (t ≡ closed r task)
        × (s' ≡ record s { tasks = close_task r s.tasks }))
unfolding resolve_reconciliation_task
resolve_reconciliation_task_iff r s t s' = (
  λ h. resolve_found-eq_resolved r s (find_task r.task_id s.tasks) t s' refl h,
  λ (task, h, e, f). cc (resolvable_succeeds r s task h, e, f),
)

pub find_task_id :
    (id : String) (ts : List TaskRow) (t : TaskRow) → find_task id ts ≡ some t → t.task_id ≡ id
unfolding find_task
find_task_id id [] t h = cc h
find_task_id id (x ∷ ts) t h = elim (Bool-cases (x.task_id == id)) [
  | inl e ↦
      let first : some x ≡ some t = rw e at h in
      let same : x ≡ t = cc first in
      ap (λ (u : TaskRow). u.task_id) (sym same) ∙ eq_of_== x.task_id id e
  | inr e ↦ let rest : find_task id ts ≡ some t = rw e at h in find_task_id id ts t rest
]

pub find_task-close_task :
    (r : Request) (ts : List TaskRow) (t : TaskRow)
    → find_task r.task_id ts ≡ some t
    → find_task r.task_id (close_task r ts) ≡ some (closed r t)
unfolding find_task close_task
find_task-close_task r [] t h = cc h
find_task-close_task r (x ∷ ts) t h = elim (Bool-cases (x.task_id == r.task_id)) [
  | inl e ↦
      let first : some x ≡ some t = rw e at h in
      let same = some-injective x t first in rw (e, e) (ap (λ y. some (closed r y)) same)
  | inr e ↦
      let later : find_task r.task_id ts ≡ some t = rw e at h in
      rw (e, e) (find_task-close_task r ts t later)
]

pub find_task-close_task_other :
    (r : Request) (id : String) (ts : List TaskRow)
    → (r.task_id == id) ≡ false
    → find_task id (close_task r ts) ≡ find_task id ts
unfolding find_task close_task
find_task-close_task_other r id [] n = refl
find_task-close_task_other r id (x ∷ ts) n = elim (Bool-cases (x.task_id == r.task_id)) [
  | inl e ↦
      let other : (x.task_id == id) ≡ false =
        ap (λ y. y == id) (eq_of_== x.task_id r.task_id e) ∙ n in
      rw (e, other) refl
  | inr e ↦ elim (Bool-cases (x.task_id == id)) [
    | inl f ↦ rw (e, f) refl
    | inr f ↦ rw (e, f) (find_task-close_task_other r id ts n)
  ]
]

-- The stores that resolutions lead to.
pub data Reaches (s : Store) : Store → Type 0 where
  stay : Reaches s s
  step :
      {m s' : Store} (r : Request) (t : TaskRow)
      → Reaches s m
      → resolve_reconciliation_task r m ≡ resolved t s'
      → Reaches s s'

step_settled :
    (id : String) (t : TaskRow) (r : Request) (m : Store) (u : TaskRow) (s' : Store)
    → (t.status == "open") ≡ false
    → find_task id m.tasks ≡ some t
    → resolve_reconciliation_task r m ≡ resolved u s'
    → find_task id s'.tasks ≡ some t
step_settled id t r m u s' n f e =
    let (task, h, _, store) = (resolve_reconciliation_task_iff r m u s').0 e in
    let tasks = ap (λ (x : Store). find_task id x.tasks) store in
    elim (Bool-cases (r.task_id == id)) [
      | inr other ↦ tasks ∙ find_task-close_task_other r id m.tasks other ∙ f
      | inl same ↦
          let found = ap (λ i. find_task i m.tasks) (eq_of_== r.task_id id same) in
          let it = some-injective task t (sym h.found ∙ found ∙ f) in
          let is_open : (t.status == "open") ≡ true =
            ap (λ (x : TaskRow). x.status == "open") (sym it)
            ∙ ap (λ x. x == "open") h.is_open
            ∙ ==-refl {A = String} "open" in
          cc (n, is_open)
    ]

settled :
    (id : String) (t : TaskRow) (s : Store) {s' : Store}
    → (t.status == "open") ≡ false
    → find_task id s.tasks ≡ some t
    → Reaches s s'
    → find_task id s'.tasks ≡ some t
settled id t s n f stay = f
settled id t s n f (step {m} {s'} r u path e) =
    step_settled id t r m u s' n (settled id t s n f path) e

refuse_settled :
    (q : Request) (s : Store) (t : TaskRow)
    → find_task q.task_id s.tasks ≡ some t
    → (t.status == "open") ≡ false
    → resolve_reconciliation_task q s ≡ refused task_not_open
unfolding resolve_reconciliation_task resolve_found
refuse_settled q s t f n = rw (f, n) refl

-- A task is resolved once: whatever is resolved after it, its row stays as its resolution left it, and
-- every further request for it is refused because it is not open.
pub resolve_reconciliation_task_once :
    (r : Request) (s : Store) (t : TaskRow) (s' s'' : Store) (q : Request)
    → resolve_reconciliation_task r s ≡ resolved t s'
    → Reaches s' s''
    → q.task_id ≡ r.task_id
    → (find_task r.task_id s''.tasks ≡ some t)
      × (resolve_reconciliation_task q s'' ≡ refused task_not_open)
unfolding string_eq
resolve_reconciliation_task_once r s t s' s'' q e path same =
    let (task, h, row, store) = (resolve_reconciliation_task_iff r s t s').0 e in
    let now : find_task r.task_id s'.tasks ≡ some t =
      ap (λ (x : Store). find_task r.task_id x.tasks) store
      ∙ find_task-close_task r s.tasks task h.found
      ∙ ap some (sym row) in
    let n : (t.status == "open") ≡ false = ap (λ (x : TaskRow). x.status == "open") row in
    let later = settled r.task_id t s' n now path in
    (later, refuse_settled q s'' t (ap (λ i. find_task i s''.tasks) same ∙ later) n)
