-- ===== src/Review/Tables.antt =====
-- What an approval reads of the tables: a decision by its table and id, its key, `_load_task`, and the
-- claims on evidence of `_claim_decision_evidence` and `_evidence_claims_for_decision`.
use portfolio_tracker_public.Prelude.{
  ℕ, String, ◌<>◌, List, [], ◌∷◌, ◌++◌, map, Option, none, some, Bool, ◌&&◌, ◌==◌, string_eq,
  option_eq, if◌then◌else◌, eqb, keep, not,
}
use portfolio_tracker_public.Reconcile.Resolve.{TaskRow, DecisionRow, Store, find_task}
use portfolio_tracker_public.Review.Types.{
  AccountingReviewAction, Decision, transfer, cashflow, approval, basis, StoredDecision,
  EvidenceClaim, ReviewStore, not_found, conflict, integrity_error, Outcome, done, raised, ◌>>=◌,
  Provenance,
}
use portfolio_tracker_public.Review.Decisions.{decision_type_of}

-- The table of a decision, its key (`_decision_key_value`) and the columns that all decisions have.
abbrev pub table_of : Decision → String
table_of (transfer d) = "accounting_transfer_link"
table_of (cashflow d) = "accounting_external_cashflow_classification"
table_of (approval d) = "accounting_import_approval"
table_of (basis d) = "accounting_cost_basis_decision"

abbrev pub decision_key_value : Decision → String
decision_key_value (transfer d) = d.link_group_key
decision_key_value (cashflow d) = d.classification_key
decision_key_value (approval d) = d.approval_key
decision_key_value (basis d) = d.basis_key

abbrev pub provenance_of : Decision → Provenance
provenance_of (transfer d) = d.provenance
provenance_of (cashflow d) = d.provenance
provenance_of (approval d) = d.provenance
provenance_of (basis d) = d.provenance

-- `_decision_key_prefix`, of the decision type of an action
abbrev pub decision_key_prefix : AccountingReviewAction → String
decision_key_prefix action =
    let t = decision_type_of action in
    if t == "accounting_transfer_link"
    then "transfer"
    else if t == "accounting_external_cashflow_classification"
    then "cashflow"
    else if t == "accounting_import_approval"
    then "import"
    else "basis"

-- `session.get(decision_model, decision_id)`
unfoldable pub find_stored : String → ℕ → List StoredDecision → Option StoredDecision
find_stored decision_type id [] = none
find_stored decision_type id (d ∷ ds) =
    let rest = find_stored decision_type id ds in
    if table_of d.decision == decision_type && eqb d.id id then some d else rest

-- What `resolve_reconciliation_task` reads of the tables.
abbrev pub decision_row : StoredDecision → DecisionRow
decision_row d = record {
  decision_type = table_of d.decision;
  id = d.id;
  status = (provenance_of d.decision).status;
  review_task_id = (provenance_of d.decision).review_task_id;
}

abbrev pub resolution_store : ReviewStore → Store
resolution_store s = record { tasks = s.tasks; decisions = map decision_row s.decisions }

unfoldable pub load_task : ReviewStore → String → Outcome TaskRow
load_task s task_id = elim (find_task task_id s.tasks) [
  | none ↦ raised not_found
  | some task ↦ done task
]

-- `_evidence_claims_for_decision`, of a decision and its id
unfoldable pub evidence_claims_for_decision : Decision → ℕ → List EvidenceClaim
evidence_claims_for_decision (transfer link) id =
    record {
      evidence_key = link.from_evidence_key;
      source_table = "accounting_transfer_links";
      source_id = id;
      claim_role = "transfer_from";
    }
    ∷ record {
      evidence_key = link.to_evidence_key;
      source_table = "accounting_transfer_links";
      source_id = id;
      claim_role = "transfer_to";
    }
    ∷ []
evidence_claims_for_decision (cashflow c) id =
    record {
      evidence_key = c.evidence_key;
      source_table = "accounting_external_cashflow_classifications";
      source_id = id;
      claim_role = "cashflow";
    }
    ∷ []
evidence_claims_for_decision (approval a) id = []
evidence_claims_for_decision (basis b) id = []

unfoldable pub find_claim : String → List EvidenceClaim → Option EvidenceClaim
find_claim key [] = none
find_claim key (c ∷ cs) =
    let rest = find_claim key cs in if c.evidence_key == key then some c else rest

abbrev pub is_same_claim : EvidenceClaim → EvidenceClaim → Bool
is_same_claim existing claim =
    existing.source_table == claim.source_table
    && eqb existing.source_id claim.source_id
    && existing.claim_role == claim.claim_role

-- The loop over the claims: those that are missing, or a conflict with an existing one.
unfoldable pub missing_claims :
    List EvidenceClaim → List EvidenceClaim → Outcome (List EvidenceClaim)
missing_claims existing [] = done []
missing_claims existing (claim ∷ claims) =
    let rest = missing_claims existing claims in
    elim (find_claim claim.evidence_key existing) [
      | none ↦ rest >>= λ missing. done (claim ∷ missing)
      | some other ↦
          if is_same_claim other claim
          then rest
          else raised (conflict ("accounting evidence already claimed: " <> claim.evidence_key))
    ]

-- The flush, with the constraint that an evidence key is claimed once.
unfoldable pub flush_claims : List EvidenceClaim → List EvidenceClaim → Outcome (List EvidenceClaim)
flush_claims claims [] = done claims
flush_claims claims (c ∷ cs) =
    let rest = flush_claims (claims ++ (c ∷ [])) cs in
    elim (find_claim c.evidence_key claims) [ none ↦ rest | some other ↦ raised integrity_error ]

-- `_claim_decision_evidence` and the flush that follows it
unfoldable pub claim_decision_evidence :
    List EvidenceClaim → StoredDecision → Outcome (List EvidenceClaim)
claim_decision_evidence claims d =
    missing_claims claims (evidence_claims_for_decision d.decision d.id) >>= flush_claims claims

-- The tables with a trigger on their rows
abbrev pub trigger_table : Decision → Option String
trigger_table (transfer link) = some "accounting_transfer_links"
trigger_table (cashflow c) = some "accounting_external_cashflow_classifications"
trigger_table (approval a) = none
trigger_table (basis b) = none

abbrev pub is_of_row : String → ℕ → EvidenceClaim → Bool
is_of_row table id c = c.source_table == table && eqb c.source_id id

-- The trigger of migration 00008 on a row that is added. The claims that it makes of the row are those
-- of `_evidence_claims_for_decision`.
unfoldable pub refresh_accounting_evidence_claims :
    List EvidenceClaim → StoredDecision → Outcome (List EvidenceClaim)
refresh_accounting_evidence_claims claims d = elim (trigger_table d.decision) [
  | none ↦ done claims
  | some table ↦
      let others = keep (λ c. not (is_of_row table d.id c)) claims in
      if (provenance_of d.decision).status == "active"
      then flush_claims others (evidence_claims_for_decision d.decision d.id)
      else done others
]
