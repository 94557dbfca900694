-- ===== src/Reconcile/Persistence.antt =====
-- Persisting the same evidence twice.
use portfolio_tracker_public.Prelude.{
  String, List, [], ◌∷◌, ◌++◌, Bool, true, false, not, ◌==◌, string_eq, any, any-append, keep, ◌≡◌,
  refl, ap, ◌∙◌, All, All-In, All-mono, In, In-All, Bool-cases, inl, inr, arith, ==-refl,
}
use portfolio_tracker_public.Reconcile.Types.{
  MovementEvidence, CostBasisGapEvidence, TransferLinkRecord, ExternalCashflowClassificationRecord,
  ReconciliationTaskRecord,
}
use portfolio_tracker_public.Reconcile.Records.{transfer_link, external_withdrawal}
use portfolio_tracker_public.Reconcile.Run.{reconcile_accounting_evidence}
use portfolio_tracker_public.Reconcile.Matched.{IsInternal, IsXtbWithdrawal}
use portfolio_tracker_public.Reconcile.Links.{reconcile_accounting_evidence_sound}
use portfolio_tracker_public.Reconcile.Persist.{
  Tables, is_existing_link, is_existing_task, is_existing_cashflow, add_missing, added_rows,
  flushed, reconcile_and_persist_movements,
}

module _ {A : Type 0} where
  any-In : (p : A → Bool) (xs : List A) (x : A) → In x xs → p x ≡ true → any p xs ≡ true
  any-In p [] x i h = elim i [ ]
  any-In p (y ∷ xs) x (inl e) h = let here = ap p e ∙ h in rw here refl
  any-In p (y ∷ xs) x (inr i) h = let later = any-In p xs x i h in ground (arith, later)

  In-keep : (p : A → Bool) (xs : List A) (x : A) → In x xs → p x ≡ true → In x (keep p xs)
  In-keep p [] x i h = elim i [ ]
  In-keep p (y ∷ xs) x (inl e) h = let here = ap p e ∙ h in rw here (inl e)
  In-keep p (y ∷ xs) x (inr i) h = elim (Bool-cases (p y)) [
    | inl f ↦ rw f (inr (In-keep p xs x i h))
    | inr f ↦ rw f (In-keep p xs x i h)
  ]

  keep-none : (p : A → Bool) (xs : List A) → All (λ x. p x ≡ false) xs → keep p xs ≡ []
  keep-none p [] h = refl
  keep-none p (x ∷ xs) h = rw h.0 (keep-none p xs h.1)

  add_missing-twice :
      (is_existing : A → A → Bool) (stored records : List A)
      → All (λ x. is_existing x x ≡ true) records
      → add_missing is_existing (stored ++ add_missing is_existing stored records) records ≡ []
  unfolding add_missing
  add_missing-twice is_existing stored records own =
      let added = keep (λ new. not (any (λ row. is_existing row new) stored)) records in
      keep-none _ records (
        All-In _ records (λ x i. elim (Bool-cases (any (λ row. is_existing row x) stored)) [
          | inl e ↦ rw (any-append (λ row. is_existing row x) stored added, e) refl
          | inr e ↦
              let kept =
                In-keep (λ new. not (any (λ row. is_existing row new) stored)) records x i
                  (rw e refl) in
              let found = any-In (λ row. is_existing row x) added x kept (In-All _ records own i) in
              rw (any-append (λ row. is_existing row x) stored added, e, found) refl
        ]))

same_link : (l : TransferLinkRecord) → l.status ≡ "active" → is_existing_link l l ≡ true
unfolding is_existing_link
same_link l e =
    let active : (l.status == "active") ≡ true =
      ap (λ x. x == "active") e ∙ ==-refl {A = String} "active" in
    rw (active, ==-refl l.link_group_key) refl

same_task : (t : ReconciliationTaskRecord) → is_existing_task t t ≡ true
unfolding is_existing_task
same_task t = ==-refl t.task_key

same_cashflow :
    (c : ExternalCashflowClassificationRecord)
    → c.status ≡ "active"
    → is_existing_cashflow c c ≡ true
unfolding is_existing_cashflow
same_cashflow c e =
    let active : (c.status == "active") ≡ true =
      ap (λ x. x == "active") e ∙ ==-refl {A = String} "active" in
    rw (active, ==-refl c.classification_key) refl

link_status :
    (ms : List MovementEvidence) (l : TransferLinkRecord) → IsInternal ms l → l.status ≡ "active"
unfolding transfer_link
link_status ms l (w, d, _, e) = ap (λ (x : TransferLinkRecord). x.status) e

cashflow_status :
    (ms : List MovementEvidence) (c : ExternalCashflowClassificationRecord)
    → IsXtbWithdrawal ms c
    → c.status ≡ "active"
unfolding external_withdrawal
cashflow_status ms c (w, _, _, _, e) = ap (λ (x : ExternalCashflowClassificationRecord). x.status) e

-- Once the rows that a run added are stored, a run on the same evidence adds nothing, whatever was
-- stored before.
pub reconcile_and_persist_movements-twice :
    (digest : String → String) (ms : List MovementEvidence) (gaps : List CostBasisGapEvidence)
    (stored : Tables)
    → let added = reconcile_and_persist_movements digest ms gaps stored in
      reconcile_and_persist_movements digest ms gaps (flushed stored added)
      ≡ record { links = []; tasks = []; cashflows = [] }
unfolding reconcile_and_persist_movements added_rows flushed
reconcile_and_persist_movements-twice digest ms gaps stored =
    let result = reconcile_accounting_evidence digest ms gaps in
    let (links, cashflows) = reconcile_accounting_evidence_sound digest ms gaps in
    let own_links =
      All-mono (IsInternal ms) (λ l. is_existing_link l l ≡ true)
        (λ l i. same_link l (link_status ms l i)) _ links in
    let own_cashflows =
      All-mono (IsXtbWithdrawal ms) (λ c. is_existing_cashflow c c ≡ true)
        (λ c i. same_cashflow c (cashflow_status ms c i)) _ cashflows in
    let own_tasks =
      All-In (λ t. is_existing_task t t ≡ true) result.reconciliation_tasks (λ t i. same_task t) in
    rw
      (
        add_missing-twice is_existing_link stored.links result.transfer_links own_links,
        add_missing-twice is_existing_task stored.tasks result.reconciliation_tasks own_tasks,
        add_missing-twice is_existing_cashflow stored.cashflows
            result.external_cashflow_classifications own_cashflows,
      )
      refl
