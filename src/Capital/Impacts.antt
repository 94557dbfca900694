-- ===== src/Capital/Impacts.antt =====
-- What lowers the confidence in the summary: the impacts of cashflows, of the current value's
-- coverage, of decisions and of issues.
use portfolio_tracker_public.Prelude.{
  String, ◌<>◌, List, [], ◌∷◌, ◌++◌, Option, none, some, Bool, true, false, not, if◌then◌else◌,
  ◌==◌, string_eq, contains, any, get_or,
}
use portfolio_tracker_public.Prelude.Decimal.{Decimal}
use portfolio_tracker_public.Prelude.Int.{abs}
use portfolio_tracker_public.Confidence.{
  Confidence, trusted, review_required, blocked, confidence_eq, label, max_confidence,
}
use portfolio_tracker_public.Capital.Types.{
  CapitalCashflow, CapitalCurrentValue, CapitalIssue, Decision, ConfidenceImpact,
  sensitive_blocking_scopes, cashflow_metric_scopes,
}
use portfolio_tracker_public.Capital.Threshold.{threshold_state}

abbrev pub is_trusted : Confidence → Bool
is_trusted trusted = true
is_trusted _ = false

-- `state in {"review_required", "blocked"}`
abbrev pub needs_review : Confidence → Bool
needs_review review_required = true
needs_review blocked = true
needs_review _ = false

abbrev pub is_blocked : Confidence → Bool
is_blocked blocked = true
is_blocked _ = false

-- `set(scopes).intersection(others)` is not empty.
unfoldable pub intersects : List String → List String → Bool
intersects scopes others = any (contains others) scopes

abbrev pub impact : Confidence → String → Option String → List String → ConfidenceImpact
impact state reason task scopes = record {
  state = state;
  reason_code = reason;
  review_task_id = task;
  blocked_scopes = scopes;
}

unfoldable pub cashflow_materiality : CapitalCashflow → Option Decimal → Option Decimal
cashflow_materiality cashflow amount = elim cashflow.materiality_usd [
  | some materiality ↦ some (abs materiality)
  | none ↦ elim amount [ some a ↦ some (abs a) | none ↦ none ]
]

-- The end of the loop's body, after the amount was added.
unfoldable pub cashflow_impacts : Option Decimal → CapitalCashflow → Decimal → List ConfidenceImpact
cashflow_impacts raw_current_value cashflow amount =
    let confidence = cashflow.confidence_state in
    let state = max_confidence (
      confidence
      ∷ threshold_state (cashflow_materiality cashflow (some amount)) raw_current_value
      ∷ []) in
    if is_trusted confidence
    then []
    else impact state (get_or cashflow.reason_code ("cashflow_confidence_" <> label confidence))
        cashflow.review_task_id (if is_blocked state then cashflow_metric_scopes else [])
      ∷ []

unfoldable pub coverage_impact : Bool → String → List String → List ConfidenceImpact
coverage_impact true reason scopes = []
coverage_impact false reason scopes =
    impact blocked reason none (scopes ++ "period_performance" ∷ []) ∷ []

unfoldable pub unresolved_coverage : CapitalCurrentValue → List ConfidenceImpact
unresolved_coverage v =
    coverage_impact v.holdings_reconciled "holdings_unresolved" ("current_value" ∷ [])
    ++ (coverage_impact v.broker_cash_reconciled "broker_cash_unresolved"
          ("current_value" ∷ "broker_cash" ∷ "cash_reserve" ∷ "lifetime_pnl" ∷ [])
        ++ (coverage_impact v.stablecoin_reserve_reconciled "stablecoin_reserve_unresolved"
              ("current_value" ∷ "stablecoin_reserve" ∷ "cash_reserve" ∷ "lifetime_pnl" ∷ [])
            ++ coverage_impact v.position_existence_reconciled "position_existence_unresolved"
                ("current_value" ∷ "position_existence" ∷ "lifetime_pnl" ∷ [])))

abbrev review_scopes : Confidence → List String
review_scopes state = if needs_review state then "current_value" ∷ "lifetime_pnl" ∷ [] else []

unfoldable pub reason_impacts : Confidence → List String → List ConfidenceImpact
reason_impacts state [] = []
reason_impacts state (reason ∷ reasons) =
    impact state reason none (review_scopes state) ∷ reason_impacts state reasons

unfoldable pub value_impacts : CapitalCurrentValue → List ConfidenceImpact
value_impacts v =
    let state = v.confidence_state in
    let own =
      if is_trusted state
      then []
      else impact state ("current_value_confidence_" <> label state) none (review_scopes state)
        ∷ [] in
    own ++ reason_impacts state v.reason_codes

abbrev is_empty : List ConfidenceImpact → Bool
is_empty [] = true
is_empty (_ ∷ _) = false

-- `_trusted_current_value_or_none` by the amount: the value, and the impacts that the call appends.
unfoldable pub trusted_amount :
    CapitalCurrentValue → Option Decimal → Option Decimal × List ConfidenceImpact
trusted_amount v none =
    (none, impact blocked "missing_current_value" none ("current_value" ∷ "lifetime_pnl" ∷ []) ∷ [])
trusted_amount v (some value) =
    let unresolved = unresolved_coverage v in
    (
      if not (is_empty unresolved)
          then none
          else if needs_review v.confidence_state
          then none
          else some value,
      unresolved ++ value_impacts v,
    )

unfoldable pub trusted_current_value : CapitalCurrentValue → Option Decimal × List ConfidenceImpact
trusted_current_value v = trusted_amount v v.value_usd

-- `if set(scopes).intersection(SENSITIVE_BLOCKING_SCOPES): state = _max_confidence([state, "blocked"])`
unfoldable pub block_if_sensitive : List String → Confidence → Confidence
block_if_sensitive scopes state =
    if intersects scopes sensitive_blocking_scopes
    then max_confidence (state ∷ blocked ∷ [])
    else state

unfoldable pub impact_for_issue : Option Decimal → CapitalIssue → ConfidenceImpact
impact_for_issue portfolio_value issue =
    let scopes = issue.affected_metric_scopes in
    let material = threshold_state issue.amount_usd portfolio_value in
    let graded =
      max_confidence
        (elim issue.severity [ some severity ↦ severity ∷ material ∷ [] | none ↦ material ∷ [] ]) in
    let state = block_if_sensitive scopes graded in
    impact state issue.reason_code issue.review_task_id (if is_blocked state then scopes else [])

unfoldable pub record_scopes : Decision → List String
record_scopes d = elim d.affected_metric_scopes [
  | some scopes ↦ scopes
  | none ↦ get_or d.approved_scope []
]

unfoldable pub record_materiality : Decision → Option Decimal
record_materiality d = elim d.materiality_usd [
  | some v ↦ some (abs v)
  | none ↦ elim d.amount_usd [
    | some v ↦ some (abs v)
    | none ↦ elim d.cost_basis_usd [ some v ↦ some (abs v) | none ↦ none ]
  ]
]

unfoldable pub decision_impact : String → Option Decimal → Decision → List ConfidenceImpact
decision_impact default_reason_prefix portfolio_value d =
    let scopes = record_scopes d in
    let confidence = d.confidence_state in
    let graded =
      max_confidence (confidence ∷ threshold_state (record_materiality d) portfolio_value ∷ []) in
    let state = block_if_sensitive scopes graded in
    if not (d.status == "active")
    then []
    else if is_trusted confidence
    then []
    else impact state
        (get_or d.reason_code (default_reason_prefix <> ("_confidence_" <> label confidence)))
        d.review_task_id (if is_blocked state then scopes else [])
      ∷ []

-- `_decision_impacts`
unfoldable pub decision_impacts : String → Option Decimal → List Decision → List ConfidenceImpact
decision_impacts prefix portfolio_value [] = []
decision_impacts prefix portfolio_value (d ∷ ds) =
    decision_impact prefix portfolio_value d ++ decision_impacts prefix portfolio_value ds

-- The open issues' impacts.
unfoldable pub issue_impacts : Option Decimal → List CapitalIssue → List ConfidenceImpact
issue_impacts portfolio_value [] = []
issue_impacts portfolio_value (issue ∷ issues) =
    let rest = issue_impacts portfolio_value issues in
    if issue.status == "open" then impact_for_issue portfolio_value issue ∷ rest else rest
