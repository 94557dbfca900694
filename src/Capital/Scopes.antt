-- ===== src/Capital/Scopes.antt =====
-- The blocked scopes of the summary, and which impacts block anything.
use portfolio_tracker_public.Prelude.{
  ◌≤◌, ◌≡◌, ◌∙◌, refl, String, List, [], ◌∷◌, map, Option, none, some, Bool, false, if◌then◌else◌,
  ◌==◌, string_eq, contains, any, arith, All, Bool-cases, inl, inr, All-append, contains-append,
}
use portfolio_tracker_public.Prelude.Decimal.{Decimal}
use portfolio_tracker_public.Prelude.Dict.{fromkeys, Distinct, contains-fromkeys, fromkeys-Distinct}
use portfolio_tracker_public.Confidence.{Confidence, rank, max_confidence_bounds}
use portfolio_tracker_public.Capital.Calendar.{Datetime}
use portfolio_tracker_public.Capital.Types.{
  CapitalCashflow, CapitalCurrentValue, CapitalIssue, Decision, ConfidenceImpact, CapitalInputs,
}
use portfolio_tracker_public.Capital.Impacts.{
  needs_review, is_blocked, is_trusted, cashflow_impacts, coverage_impact, unresolved_coverage,
  reason_impacts, value_impacts, trusted_amount, trusted_current_value, impact_for_issue,
  decision_impact, decision_impacts, issue_impacts,
}
use portfolio_tracker_public.Capital.Summary.{
  Totals, cashflow_amount, add_amount, add_cashflow, add_cashflows, all_scopes, blocked_scopes_of,
  all_decision_impacts, all_impacts, totals, no_totals, active_cashflows, first_activity,
  missing_first_activity, calculate_capital_truth,
}

contains-all_scopes :
    (is : List ConfidenceImpact) (s : String)
    → contains (all_scopes is) s ≡ any (λ i. contains i.blocked_scopes s) is
unfolding all_scopes
contains-all_scopes [] s = refl
contains-all_scopes (i ∷ is) s =
    ground (arith, contains-append i.blocked_scopes (all_scopes is) s, contains-all_scopes is s)

-- The blocked scopes are those of some impact, each once.
pub blocked_scopes_of_lem :
    (is : List ConfidenceImpact)
    → Distinct (blocked_scopes_of is)
      × ((s : String)
          → contains (blocked_scopes_of is) s ≡ any (λ i. contains i.blocked_scopes s) is)
unfolding blocked_scopes_of
blocked_scopes_of_lem is = (
  fromkeys-Distinct (all_scopes is),
  λ s. contains-fromkeys (all_scopes is) s ∙ contains-all_scopes is s,
)

-- An impact below review blocks no scope.
abbrev pub IsGraded : ConfidenceImpact → Type 0
IsGraded i = needs_review i.state ≡ false → i.blocked_scopes ≡ []

scopes_below_review :
    (state : Confidence) (scopes : List String)
    → needs_review state ≡ false
    → (if is_blocked state then scopes else []) ≡ []
scopes_below_review state scopes h = ground arith

cashflow_impacts-IsGraded :
    (raw : Option Decimal) (c : CapitalCashflow) (a : Decimal)
    → All IsGraded (cashflow_impacts raw c a)
unfolding cashflow_impacts
cashflow_impacts-IsGraded raw c a = elim (Bool-cases (is_trusted c.confidence_state)) [
  | inl fine ↦ rw fine tt
  | inr worse ↦ rw worse (scopes_below_review _ _, tt)
]

reason_impacts-IsGraded :
    (state : Confidence) (rs : List String) → All IsGraded (reason_impacts state rs)
unfolding reason_impacts
reason_impacts-IsGraded state [] = tt
reason_impacts-IsGraded state (r ∷ rs) = ground (arith, reason_impacts-IsGraded state rs)

coverage_impact-IsGraded :
    (b : Bool) (r : String) (ss : List String) → All IsGraded (coverage_impact b r ss)
unfolding coverage_impact
coverage_impact-IsGraded b r ss = ground arith

unresolved_coverage-IsGraded : (v : CapitalCurrentValue) → All IsGraded (unresolved_coverage v)
unfolding unresolved_coverage
unresolved_coverage-IsGraded v =
    All-append IsGraded _ _ (coverage_impact-IsGraded v.holdings_reconciled _ _) (
      All-append IsGraded _ _ (coverage_impact-IsGraded v.broker_cash_reconciled _ _) (
        All-append IsGraded _ _ (coverage_impact-IsGraded v.stablecoin_reserve_reconciled _ _)
          (coverage_impact-IsGraded v.position_existence_reconciled _ _)))

value_impacts-IsGraded : (v : CapitalCurrentValue) → All IsGraded (value_impacts v)
unfolding value_impacts
value_impacts-IsGraded v = ground (arith, reason_impacts-IsGraded v.confidence_state v.reason_codes)

decision_impact-IsGraded :
    (p : String) (v : Option Decimal) (d : Decision) → All IsGraded (decision_impact p v d)
unfolding decision_impact
decision_impact-IsGraded p v d = elim (Bool-cases (d.status == "active")) [
  | inl active ↦ elim (Bool-cases (is_trusted d.confidence_state)) [
    | inl fine ↦ rw (active, fine) tt
    | inr worse ↦ rw (active, worse) (scopes_below_review _ _, tt)
  ]
  | inr inactive ↦ rw inactive tt
]

impact_for_issue-IsGraded :
    (v : Option Decimal) (issue : CapitalIssue) → IsGraded (impact_for_issue v issue)
unfolding impact_for_issue
impact_for_issue-IsGraded v issue = scopes_below_review _ _

decision_impacts-IsGraded :
    (p : String) (v : Option Decimal) (ds : List Decision) → All IsGraded (decision_impacts p v ds)
unfolding decision_impacts
decision_impacts-IsGraded p v [] = tt
decision_impacts-IsGraded p v (d ∷ ds) =
    All-append IsGraded _ _ (decision_impact-IsGraded p v d) (decision_impacts-IsGraded p v ds)

issue_impacts-IsGraded :
    (v : Option Decimal) (is : List CapitalIssue) → All IsGraded (issue_impacts v is)
unfolding issue_impacts
issue_impacts-IsGraded v [] = tt
issue_impacts-IsGraded v (i ∷ is) = elim (Bool-cases (i.status == "open")) [
  | inl open_issue ↦ rw open_issue (impact_for_issue-IsGraded v i, issue_impacts-IsGraded v is)
  | inr closed ↦ rw closed (issue_impacts-IsGraded v is)
]

trusted_amount-IsGraded :
    (v : CapitalCurrentValue) (o : Option Decimal) → All IsGraded (trusted_amount v o).1
unfolding trusted_amount
trusted_amount-IsGraded v none = (λ h. cc, tt)
trusted_amount-IsGraded v (some x) =
    All-append IsGraded _ _ (unresolved_coverage-IsGraded v) (value_impacts-IsGraded v)

add_amount-IsGraded :
    (raw : Option Decimal) (t : Totals) (c : CapitalCashflow) (o : Option Decimal)
    → All IsGraded t.impacts
    → All IsGraded (add_amount raw t c o).impacts
unfolding add_amount
add_amount-IsGraded raw t c none h = h
add_amount-IsGraded raw t c (some a) h =
    ground (arith, All-append IsGraded _ _ h (cashflow_impacts-IsGraded raw c a))

add_cashflows-IsGraded :
    (raw : Option Decimal) (t : Totals) (cs : List CapitalCashflow)
    → All IsGraded t.impacts
    → All IsGraded (add_cashflows raw t cs).impacts
unfolding add_cashflows add_cashflow
add_cashflows-IsGraded raw t [] h = h
add_cashflows-IsGraded raw t (c ∷ cs) h =
    add_cashflows-IsGraded raw (add_cashflow raw t c) cs
      (add_amount-IsGraded raw t c (cashflow_amount c) h)

missing_first_activity-IsGraded : (d : Option Datetime) → All IsGraded (missing_first_activity d)
missing_first_activity-IsGraded none = (λ _. refl, tt)
missing_first_activity-IsGraded (some d) = tt

all_decision_impacts-IsGraded :
    (inputs : CapitalInputs) → All IsGraded (all_decision_impacts inputs)
unfolding all_decision_impacts
all_decision_impacts-IsGraded inputs =
    All-append IsGraded _ _ (decision_impacts-IsGraded _ _ inputs.transfer_links) (
      All-append IsGraded _ _ (decision_impacts-IsGraded _ _ inputs.import_approvals)
        (decision_impacts-IsGraded _ _ inputs.cost_basis_decisions))

-- Every impact of the summary: below review it blocks nothing.
pub all_impacts-IsGraded : (inputs : CapitalInputs) → All IsGraded (all_impacts inputs)
unfolding all_impacts totals trusted_current_value
all_impacts-IsGraded inputs =
    All-append IsGraded _ _ (add_cashflows-IsGraded _ no_totals (active_cashflows inputs) tt) (
      All-append IsGraded _ _ (trusted_amount-IsGraded inputs.current_value _) (
        All-append IsGraded _ _ (all_decision_impacts-IsGraded inputs) (
          All-append IsGraded _ _ (issue_impacts-IsGraded _ inputs.issues)
            (missing_first_activity-IsGraded (first_activity inputs)))))

All-map :
    (P : Confidence → Type 0) (is : List ConfidenceImpact)
    → All P (map (λ i. i.state) is)
    → All (λ i. P i.state) is
All-map P [] h = tt
All-map P (i ∷ is) h = (h.0, All-map P is h.1)

pub all_impacts_bounds :
    (inputs : CapitalInputs)
    → All
        (λ i. rank i.state ≤ rank (calculate_capital_truth inputs).confidence_state)
        (all_impacts inputs)
unfolding calculate_capital_truth
all_impacts_bounds inputs = All-map _ (all_impacts inputs) (max_confidence_bounds _)

below_review :
    (a b : Confidence) → rank a ≤ rank b → needs_review b ≡ false → needs_review a ≡ false
below_review a b h r = ground arith

all_scopes-eq-nil :
    (state : Confidence) (is : List ConfidenceImpact)
    → needs_review state ≡ false
    → All IsGraded is
    → All (λ i. rank i.state ≤ rank state) is
    → all_scopes is ≡ []
unfolding all_scopes
all_scopes-eq-nil state [] r g b = refl
all_scopes-eq-nil state (i ∷ is) r g b =
    rw (g.0 (below_review i.state state b.0 r)) (all_scopes-eq-nil state is r g.1 b.1)

-- A summary whose confidence is below review blocks no scope.
pub confidence_below_review :
    (inputs : CapitalInputs)
    → needs_review (calculate_capital_truth inputs).confidence_state ≡ false
    → (calculate_capital_truth inputs).blocked_metric_scopes ≡ []
unfolding calculate_capital_truth blocked_scopes_of fromkeys
confidence_below_review inputs h =
    let none_blocked =
      all_scopes-eq-nil _ (all_impacts inputs) h (all_impacts-IsGraded inputs)
        (all_impacts_bounds inputs) in
    rw none_blocked refl

-- The summary's blocked scopes are those of its impacts.
pub contains-blocked_metric_scopes :
    (inputs : CapitalInputs) (s : String)
    → contains (calculate_capital_truth inputs).blocked_metric_scopes s
      ≡ any (λ i. contains i.blocked_scopes s) (all_impacts inputs)
unfolding calculate_capital_truth
contains-blocked_metric_scopes inputs s = (blocked_scopes_of_lem (all_impacts inputs)).1 s
