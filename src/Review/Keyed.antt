-- ===== src/Review/Keyed.antt =====
-- The row that a decision makes stands in the table of the action, under the key of the request.
use mathlib.Core.Path.{subst}
use mathlib.Core.Bool.{◌&&◌}
use portfolio_tracker_public.Prelude.{
  ℕ, ◌≡◌, inl, inr, refl, sym, ap, String, List, [], ◌∷◌, ◌++◌, Option, none, some, not, ◌==◌,
  ==-refl, string_eq, option_eq, Bool-cases, arith, eqb,
}
use portfolio_tracker_public.Prelude.Int.{ltb_ℤ}
use portfolio_tracker_public.Reconcile.Resolve.{TaskRow}
use portfolio_tracker_public.Review.Types.{
  TaskColumns, DecisionRequest, AccountingReviewAction, Decision, transfer, cashflow, approval,
  basis, internal_transfer, personal_withdrawal, import_approval, manual_cost_basis,
  unknown_cost_basis, unknown, StoredDecision, InternalTransferDecision, ManualCostBasisDecision,
  ImportApproval, CostBasisDecision, Outcome, done, raised, Surroundings,
}
use portfolio_tracker_public.Review.Values.{
  required_string_list, required_string, required_datetime, has_manual_basis_value,
}
use portfolio_tracker_public.Review.Decisions.{
  decision_type_of, decision_key, build_decision, transfer_decision, internal_transfer_decision,
  unknown_basis, manual_basis, import_approval_decision, manual_basis_decision,
  personal_withdrawal_decision, unknown_outgoing_decision,
}
use portfolio_tracker_public.Review.Tables.{
  table_of, decision_key_value, decision_key_prefix, find_stored,
}
use portfolio_tracker_public.Review.Approved.{bind_done, raise_if_done}

-- The database's ids: a new row's id is not that of a stored row of its table.
abbrev pub IsFresh : Surroundings → Type 0
IsFresh env = (t : String) (ds : List StoredDecision) → find_stored t (env.new_id t ds) ds ≡ none

pub find_stored-append :
    (t : String) (id : ℕ) (ds : List StoredDecision) (d : StoredDecision)
    → find_stored t id ds ≡ none
    → table_of d.decision ≡ t
    → d.id ≡ id
    → find_stored t id (ds ++ (d ∷ [])) ≡ some d
unfolding find_stored
find_stored-append t id [] d h e f =
    rw (sym e, sym f) (rw (==-refl (table_of d.decision)) (ground arith))
find_stored-append t id (x ∷ xs) d h e f =
    elim (Bool-cases (table_of x.decision == t && eqb x.id id)) [
      | inl same ↦ let bad : some x ≡ none = rw same at h in cc bad
      | inr other ↦
          let rest : find_stored t id xs ≡ none = rw other at h in
          rw other (find_stored-append t id xs d rest e f)
    ]

-- A decision of the table and with the key that the request's action gives.
abbrev pub IsKeyed :
    Surroundings → TaskRow → DecisionRequest → AccountingReviewAction → Decision → Type 0
IsKeyed env task request action d =
    (table_of d ≡ decision_type_of action)
    × (decision_key_value d ≡ decision_key env (decision_key_prefix action) task request)

module _ (env : Surroundings) (task : TaskRow) (c : TaskColumns) (request : DecisionRequest)
    (username : String) (d : Decision) where
  transfer_decision-IsKeyed :
      (details : Option InternalTransferDecision)
      → transfer_decision env task c request details username ≡ done d
      → IsKeyed env task request internal_transfer d
  unfolding internal_transfer_decision string_eq
  transfer_decision-IsKeyed none h = cc h
  transfer_decision-IsKeyed (some details) h =
      let e : transfer (internal_transfer_decision env task c request details username) ≡ d =
        cc h in
      subst (IsKeyed env task request internal_transfer) e (refl, refl)

  import_approval_decision-IsKeyed :
      (a : ImportApproval)
      → import_approval_decision env task c request username ≡ done a
      → IsKeyed env task request import_approval (approval a)
  unfolding import_approval_decision string_eq
  import_approval_decision-IsKeyed a h =
      let (fingerprints, _, h1) =
        bind_done (required_string_list c.evidence "source_fingerprints") _ _ h in
      let (scope, _, h2) = bind_done (required_string_list c.evidence "approved_scope") _ _ h1 in
      let (id, _, h3) = bind_done (required_string c.evidence "import_scope_id") _ _ h2 in
      let (start, _, h4) =
        bind_done (required_datetime env.from_iso c.evidence "coverage_start") _ _ h3 in
      let (end_at, _, h5) =
        bind_done (required_datetime env.from_iso c.evidence "coverage_end") _ _ h4 in
      let (_, h6) = raise_if_done (ltb_ℤ end_at start) _ _ _ h5 in (refl, sym (ap key_of h6))
    where
      key_of : Outcome ImportApproval → String
      key_of (done x) = x.approval_key
      key_of (raised e) = ""

  manual_basis_decision-IsKeyed :
      (details : Option ManualCostBasisDecision) (b : CostBasisDecision)
      → manual_basis_decision env task c request details username ≡ done b
      → IsKeyed env task request manual_cost_basis (basis b)
  unfolding manual_basis_decision string_eq
  manual_basis_decision-IsKeyed none b h = cc h
  manual_basis_decision-IsKeyed (some details) b h =
      let (has_value, _, h1) = bind_done (has_manual_basis_value details) _ _ h in
      let (_, h2) = raise_if_done (not has_value) _ _ _ h1 in
      let e : manual_basis env task c request details username ≡ b = cc h2 in
      subst (λ x. IsKeyed env task request manual_cost_basis (basis x)) e (refl, refl)

  -- The row that a decision makes stands in the table of the action, under the key of the request.
  pub build_decision-IsKeyed :
      (action : AccountingReviewAction)
      → build_decision env task c request action username ≡ done d
      → IsKeyed env task request action d
  unfolding build_decision personal_withdrawal_decision unknown_outgoing_decision string_eq
  build_decision-IsKeyed internal_transfer h = transfer_decision-IsKeyed request.transfer_details h
  build_decision-IsKeyed personal_withdrawal h =
      let e : cashflow (personal_withdrawal_decision env task c request username) ≡ d = cc h in
      subst (IsKeyed env task request personal_withdrawal) e (refl, refl)
  build_decision-IsKeyed unknown h =
      let e : cashflow (unknown_outgoing_decision env task c request username) ≡ d = cc h in
      subst (IsKeyed env task request unknown) e (refl, refl)
  build_decision-IsKeyed import_approval h =
      let (a, made, h1) = bind_done (import_approval_decision env task c request username) _ _ h in
      let e : approval a ≡ d = cc h1 in
      subst (IsKeyed env task request import_approval) e (import_approval_decision-IsKeyed a made)
  build_decision-IsKeyed manual_cost_basis h =
      let (b, made, h1) =
        bind_done (manual_basis_decision env task c request request.cost_basis username) _ _ h in
      let e : basis b ≡ d = cc h1 in
      subst (IsKeyed env task request manual_cost_basis) e
        (manual_basis_decision-IsKeyed request.cost_basis b made)
  build_decision-IsKeyed unknown_cost_basis h =
      let e : basis (unknown_basis env task c request username) ≡ d = cc h in
      subst (IsKeyed env task request unknown_cost_basis) e (refl, refl)
