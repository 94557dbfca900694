-- ===== src/Reconcile/Coverage/Gaps.antt =====
-- Deposits whose value is not known.
use mathlib.Core.Path.{subst, sym}
use portfolio_tracker_public.Prelude.{
  ◌≡◌, ◌≢◌, refl, String, List, [], ◌∷◌, none, true, false, string_eq, contains, arith, All, In,
  Any, Bool-cases, inl, inr, is_none, ap, Any-mono, All-mono,
}
use portfolio_tracker_public.Prelude.Dict.{Dict, get, setdefault, get-setdefault_self, Any-values}
use portfolio_tracker_public.Reconcile.Types.{
  MovementEvidence, CostBasisGapEvidence, ReconciliationTaskRecord,
}
use portfolio_tracker_public.Reconcile.Matching.{dedupe_movements, is_deposit}
use portfolio_tracker_public.Reconcile.Records.{
  missing_cost_basis_key, missing_cost_basis_task, missing_cost_basis_gaps,
}
use portfolio_tracker_public.Reconcile.Run.{
  found_in, add_gap_tasks, linked_deposit_keys, all_tasks, reconcile_accounting_evidence,
}
use portfolio_tracker_public.Reconcile.Coverage.Outgoing.{add_gap_tasks-keeps, all_tasks-AreFiled}

-- A deposit that no link accounts for and that has no value.
pub record IsUnpriced (linked : List String) (m : MovementEvidence) : Type 0 where
  pub deposit : is_deposit m ≡ true
  pub no_amount : m.amount_usd ≡ none
  pub unlinked : contains linked m.evidence_key ≡ false

module _ (linked : List String) where
  gap_of_unpriced :
      (ms : List MovementEvidence) (m : MovementEvidence)
      → In m ms
      → IsUnpriced linked m
      → Any (λ g. g.evidence_key ≡ m.evidence_key) (missing_cost_basis_gaps ms linked)
  unfolding missing_cost_basis_gaps
  gap_of_unpriced [] m i u = elim i [ ]
  gap_of_unpriced (x ∷ ms) m (inl e) u =
      let v : IsUnpriced linked x = subst (IsUnpriced linked) (sym e) u in
      let absent : is_none x.amount_usd ≡ true = ground (arith, v.no_amount) in
      rw (v.unlinked, v.deposit, absent) (inl (ap (λ y. y.evidence_key) e))
  gap_of_unpriced (x ∷ ms) m (inr i) u =
      let rest = gap_of_unpriced ms m i u in
      elim (Bool-cases (contains linked x.evidence_key)) [
        | inl a ↦ rw a rest
        | inr a ↦ elim (Bool-cases (is_deposit x)) [
          | inr b ↦ rw (a, b) rest
          | inl b ↦ elim (Bool-cases (is_none x.amount_usd)) [
            | inl c ↦ rw (a, b, c) (inr rest)
            | inr c ↦ rw (a, b, c) rest
          ]
        ]
      ]

  -- A gap is always that of an unpriced deposit of the list.
  pub missing_cost_basis_gaps_sound :
      (ms : List MovementEvidence)
      → All
          (λ g. Any (λ m. IsUnpriced linked m × (m.evidence_key ≡ g.evidence_key)) ms)
          (missing_cost_basis_gaps ms linked)
  unfolding missing_cost_basis_gaps
  missing_cost_basis_gaps_sound [] = tt
  missing_cost_basis_gaps_sound (x ∷ ms) =
      let rest =
        All-mono _
          (λ g. Any (λ m. IsUnpriced linked m × (m.evidence_key ≡ g.evidence_key)) (x ∷ ms))
          (λ g h. inr h) _ (missing_cost_basis_gaps_sound ms) in
      elim (Bool-cases (contains linked x.evidence_key)) [
        | inl a ↦ rw a rest
        | inr a ↦ elim (Bool-cases (is_deposit x)) [
          | inr b ↦ rw (a, b) rest
          | inl b ↦ elim (Bool-cases (is_none x.amount_usd)) [
            | inl c ↦
                rw (a, b, c)
                  (inl (record { deposit = b; no_amount = ground arith; unlinked = a }, refl), rest)
            | inr c ↦ rw (a, b, c) rest
          ]
        ]
      ]

module _ (digest : String → String) where
  first_asked :
      (tasks : Dict String ReconciliationTaskRecord) (g : CostBasisGapEvidence)
      → get (missing_cost_basis_key g.evidence_key) (
          setdefault
            (missing_cost_basis_task digest g).task_key
            (missing_cost_basis_task digest g)
            tasks)
        ≢ none
  unfolding missing_cost_basis_task
  first_asked tasks g = get-setdefault_self _ _ tasks

  add_gap_tasks-asked :
      (tasks : Dict String ReconciliationTaskRecord) (gaps : List CostBasisGapEvidence)
      (key : String)
      → Any (λ g. g.evidence_key ≡ key) gaps
      → get (missing_cost_basis_key key) (add_gap_tasks digest tasks gaps) ≢ none
  unfolding add_gap_tasks
  add_gap_tasks-asked tasks [] key i = elim i [ ]
  add_gap_tasks-asked tasks (g ∷ gaps) key (inl e) = add_gap_tasks-keeps digest [] _ gaps _ (
      subst
        (λ k.
          get (missing_cost_basis_key k) (
            setdefault (missing_cost_basis_task digest g).task_key
              (missing_cost_basis_task digest g) tasks)
          ≢ none)
        e (first_asked tasks g))
  add_gap_tasks-asked tasks (g ∷ gaps) key (inr i) =
      add_gap_tasks-asked
        (setdefault (missing_cost_basis_task digest g).task_key (missing_cost_basis_task digest g)
          tasks)
        gaps key i

  -- A deposit that deduplication keeps, that no link accounts for and that has no value is asked about,
  -- and so is every gap that the caller hands in: the result holds a task with the key of its missing
  -- cost basis.
  pub missing_cost_basis_asked :
      (ms : List MovementEvidence) (gaps : List CostBasisGapEvidence)
      → let tasks = (reconcile_accounting_evidence digest ms gaps).reconciliation_tasks in
        ((m : MovementEvidence)
          → In m (dedupe_movements ms)
          → IsUnpriced (linked_deposit_keys digest ms) m
          → Any (λ task. task.task_key ≡ missing_cost_basis_key m.evidence_key) tasks)
        × ((g : CostBasisGapEvidence)
            → In g gaps
            → Any (λ task. task.task_key ≡ missing_cost_basis_key g.evidence_key) tasks)
  unfolding reconcile_accounting_evidence all_tasks
  missing_cost_basis_asked ms gaps = (
    λ m i u. Any-values _ _ _ (all_tasks-AreFiled digest ms gaps) (
        add_gap_tasks-keeps digest [] _ gaps _ (
          add_gap_tasks-asked (found_in digest ms).tasks _ m.evidence_key
            (gap_of_unpriced (linked_deposit_keys digest ms) (dedupe_movements ms) m i u))),
    λ g i. Any-values _ _ _ (all_tasks-AreFiled digest ms gaps) (
        add_gap_tasks-asked _ gaps g.evidence_key
          (Any-mono _ _ (λ h e. ap (λ x. x.evidence_key) e) gaps i)),
  )
