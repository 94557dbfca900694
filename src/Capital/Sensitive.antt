-- ===== src/Capital/Sensitive.antt =====
-- What one sensitive issue does to the summary, and what a summary below review always shows.
use mathlib.Core.Path.{subst}
use portfolio_tracker_public.Prelude.{
  ◌≤◌, ◌≡◌, ◌∙◌, refl, sym, ap, String, List, [], ◌∷◌, ◌++◌, Option, none, some, true, false, ◌==◌,
  ==-refl, string_eq, contains, any, arith, All, Any, Bool-cases, Option-cases, inl, inr,
  All-append_inv, Any-append_left, Any-append_right,
}
use portfolio_tracker_public.Prelude.Decimal.{Decimal}
use portfolio_tracker_public.Prelude.Int.{◌-ℤ◌}
use portfolio_tracker_public.Confidence.{Confidence, blocked, rank, max_confidence, max_from}
use portfolio_tracker_public.Capital.Types.{
  CapitalCurrentValue, CapitalIssue, ConfidenceImpact, CapitalInputs, derived_stat_scopes,
  sensitive_blocking_scopes,
}
use portfolio_tracker_public.Capital.Impacts.{
  needs_review, intersects, block_if_sensitive, impact_for_issue, issue_impacts, coverage_impact,
  unresolved_coverage, value_impacts, trusted_amount, trusted_current_value,
}
use portfolio_tracker_public.Capital.Summary.{
  threshold_value, totals, all_decision_impacts, all_impacts, current_value_scopes,
  calculate_capital_truth,
}
use portfolio_tracker_public.Capital.Scopes.{
  contains-blocked_metric_scopes, all_impacts_bounds, confidence_below_review,
}
use portfolio_tracker_public.Capital.Visibility.{
  IsReconciled, current_value_visible, lifetime_pnl_visible,
}

-- Two lists with a common entry intersect.
intersects_common :
    (xs ys : List String) (s : String)
    → contains xs s ≡ true
    → contains ys s ≡ true
    → intersects xs ys ≡ true
unfolding intersects
intersects_common [] ys s h k = h
intersects_common (x ∷ xs) ys s h k = ground (arith, intersects_common xs ys s)

max_confidence-blocked : (c : Confidence) → max_confidence (c ∷ blocked ∷ []) ≡ blocked
unfolding max_confidence max_from
max_confidence-blocked c = ground arith

-- An impact that blocks the scope `s`.
abbrev Blocks : String → ConfidenceImpact → Type 0
Blocks s i = (i.state ≡ blocked) × (contains i.blocked_scopes s ≡ true)

impact_for_issue-Blocks :
    (v : Option Decimal) (issue : CapitalIssue) (s : String)
    → contains issue.affected_metric_scopes s ≡ true
    → contains sensitive_blocking_scopes s ≡ true
    → Blocks s (impact_for_issue v issue)
unfolding impact_for_issue block_if_sensitive
impact_for_issue-Blocks v issue s h k =
    rw
      (
        intersects_common issue.affected_metric_scopes sensitive_blocking_scopes s h k,
        max_confidence-blocked,
      )
      (refl, h)

issue_impacts-Blocks :
    (v : Option Decimal) (before after : List CapitalIssue) (issue : CapitalIssue) (s : String)
    → issue.status ≡ "open"
    → contains issue.affected_metric_scopes s ≡ true
    → contains sensitive_blocking_scopes s ≡ true
    → Any (Blocks s) (issue_impacts v (before ++ issue ∷ after))
unfolding issue_impacts
issue_impacts-Blocks v [] after issue s o h k =
    let is_open : (issue.status == "open") ≡ true =
      ap (λ t. t == "open") o ∙ ==-refl {A = String} "open" in
    rw is_open (inl (impact_for_issue-Blocks v issue s h k))
issue_impacts-Blocks v (i ∷ before) after issue s o h k =
    let rest = issue_impacts-Blocks v before after issue s o h k in
    elim (Bool-cases (i.status == "open")) [ inl e ↦ rw e (inr rest) | inr e ↦ rw e rest ]

any_of_Blocks :
    (s : String) (is : List ConfidenceImpact)
    → Any (Blocks s) is
    → any (λ i. contains i.blocked_scopes s) is ≡ true
any_of_Blocks s [] h = elim h [ ]
any_of_Blocks s (i ∷ is) (inl b) = ground arith
any_of_Blocks s (i ∷ is) (inr r) = ground (arith, any_of_Blocks s is r)

blocked_of_Any :
    (s : String) (c : Confidence) (is : List ConfidenceImpact)
    → Any (Blocks s) is
    → All (λ i. rank i.state ≤ rank c) is
    → c ≡ blocked
blocked_of_Any s c [] h b = elim h [ ]
blocked_of_Any s c (i ∷ is) (inl h) b = ground arith
blocked_of_Any s c (i ∷ is) (inr r) b = blocked_of_Any s c is r b.1

all_impacts-Blocks :
    (inputs : CapitalInputs) (s : String)
    → Any (Blocks s) (issue_impacts (threshold_value inputs) inputs.issues)
    → Any (Blocks s) (all_impacts inputs)
unfolding all_impacts
all_impacts-Blocks inputs s h =
    let closing = Any-append_left (Blocks s) (issue_impacts _ inputs.issues) _ h in
    let decided = Any-append_right (Blocks s) (all_decision_impacts inputs) _ closing in
    let valued =
      Any-append_right (Blocks s) (trusted_current_value inputs.current_value).1 _ decided in
    Any-append_right (Blocks s) (totals inputs).impacts _ valued

hidden_pnl :
    (inputs : CapitalInputs)
    → intersects (calculate_capital_truth inputs).blocked_metric_scopes derived_stat_scopes ≡ true
    → (calculate_capital_truth inputs).lifetime_pnl_usd ≡ none
hidden_pnl inputs hit = elim (Option-cases (calculate_capital_truth inputs).lifetime_pnl_usd) [
  | inl e ↦ e
  | inr (p, e) ↦ let (x, v, free, q) = ((lifetime_pnl_visible inputs).0 p).0 e in cc
]

hidden_value :
    (inputs : CapitalInputs)
    → intersects (calculate_capital_truth inputs).blocked_metric_scopes current_value_scopes ≡ true
    → (calculate_capital_truth inputs).current_portfolio_value_usd ≡ none
hidden_value inputs hit =
    elim (Option-cases (calculate_capital_truth inputs).current_portfolio_value_usd) [
      | inl e ↦ e
      | inr (x, e) ↦ let (k, r, free) = (current_value_visible inputs x).0 e in cc
    ]

-- An open issue on a sensitive scope, wherever it stands among the issues and however small its
-- amount, makes the whole summary blocked and lists the scope as blocked. If the scope is a derived
-- statistic's, no profit is shown; if it is the current value's, no value is.
pub sensitive_issue_blocks :
    (inputs : CapitalInputs) (before after : List CapitalIssue) (issue : CapitalIssue) (s : String)
    → inputs.issues ≡ before ++ issue ∷ after
    → issue.status ≡ "open"
    → contains issue.affected_metric_scopes s ≡ true
    → contains sensitive_blocking_scopes s ≡ true
    → let summary = calculate_capital_truth inputs in
      (summary.confidence_state ≡ blocked)
      × (contains summary.blocked_metric_scopes s ≡ true)
      × (contains derived_stat_scopes s ≡ true → summary.lifetime_pnl_usd ≡ none)
      × (contains current_value_scopes s ≡ true → summary.current_portfolio_value_usd ≡ none)
sensitive_issue_blocks inputs before after issue s e o h k =
    let summary = calculate_capital_truth inputs in
    let blocking : Any (Blocks s) (all_impacts inputs) = all_impacts-Blocks inputs s (
      subst (λ is. Any (Blocks s) (issue_impacts (threshold_value inputs) is)) (sym e)
        (issue_impacts-Blocks _ before after issue s o h k)) in
    let listed : contains summary.blocked_metric_scopes s ≡ true =
      contains-blocked_metric_scopes inputs s ∙ any_of_Blocks s (all_impacts inputs) blocking in
    (
      blocked_of_Any s _ (all_impacts inputs) blocking (all_impacts_bounds inputs),
      listed,
      λ d. hidden_pnl inputs (intersects_common _ derived_stat_scopes s listed d),
      λ d. hidden_value inputs (intersects_common _ current_value_scopes s listed d),
    )

coverage_of_impacts :
    (v : CapitalCurrentValue) (c : Confidence)
    → needs_review c ≡ false
    → All (λ i. rank i.state ≤ rank c) (unresolved_coverage v)
    → (v.holdings_reconciled ≡ true)
      × (v.broker_cash_reconciled ≡ true)
      × (v.stablecoin_reserve_reconciled ≡ true)
      × (v.position_existence_reconciled ≡ true)
unfolding unresolved_coverage coverage_impact
coverage_of_impacts v c r h = ground arith

reviewed_of_impacts :
    (v : CapitalCurrentValue) (c : Confidence)
    → needs_review c ≡ false
    → All (λ i. rank i.state ≤ rank c) (value_impacts v)
    → needs_review v.confidence_state ≡ false
unfolding value_impacts
reviewed_of_impacts v c r h = ground arith

-- The evidence, from impacts that are all below review.
IsReconciled-of_impacts :
    (v : CapitalCurrentValue) (o : Option Decimal) (c : Confidence)
    → needs_review c ≡ false
    → All (λ i. rank i.state ≤ rank c) (trusted_amount v o).1
    → (x : Decimal) × (o ≡ some x) × IsReconciled v
unfolding trusted_amount
IsReconciled-of_impacts v none c r h = absurd (ground arith)
IsReconciled-of_impacts v (some x) c r h =
    let parts = All-append_inv (λ i. rank i.state ≤ rank c) (unresolved_coverage v) _ h in
    let (a, b, s, p) = coverage_of_impacts v c r parts.0 in
    (
      x,
      refl,
      record {
        holdings = a;
        broker_cash = b;
        stablecoin_reserve = s;
        position_existence = p;
        reviewed = reviewed_of_impacts v c r parts.1;
      },
    )

-- A summary whose confidence is below review has a known, reconciled value and shows it, blocks no
-- scope, and shows the profit, which is that value less the net capital.
pub below_review_shows :
    (inputs : CapitalInputs)
    → needs_review (calculate_capital_truth inputs).confidence_state ≡ false
    → let summary = calculate_capital_truth inputs in
      (x : Decimal) × (inputs.current_value.value_usd ≡ some x)
      × IsReconciled inputs.current_value
      × (summary.blocked_metric_scopes ≡ [])
      × (summary.current_portfolio_value_usd ≡ some x)
      × (summary.lifetime_pnl_usd ≡ some (x -ℤ summary.net_capital_at_work_usd))
unfolding all_impacts trusted_current_value intersects
below_review_shows inputs r =
    let summary = calculate_capital_truth inputs in
    let c = summary.confidence_state in
    let bounds =
      All-append_inv (λ i. rank i.state ≤ rank c) (totals inputs).impacts _
        (all_impacts_bounds inputs) in
    let valued =
      All-append_inv (λ i. rank i.state ≤ rank c) (trusted_current_value inputs.current_value).1 _
        bounds.1 in
    let (x, e, ok) = IsReconciled-of_impacts inputs.current_value _ c r valued.0 in
    let clear = confidence_below_review inputs r in
    let free : (scopes : List String) → intersects summary.blocked_metric_scopes scopes ≡ false =
      λ scopes. ap (λ ss. intersects ss scopes) clear in
    let shown = (current_value_visible inputs x).1 (e, ok, free current_value_scopes) in
    (
      x,
      e,
      ok,
      clear,
      shown,
      ((lifetime_pnl_visible inputs).0 _).1 (x, shown, free derived_stat_scopes, refl),
    )
