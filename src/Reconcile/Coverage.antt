-- ===== src/Reconcile/Coverage.antt =====
-- Nothing that should be accounted for is passed over: outgoing movements and unpriced deposits.
pub mod Unique
pub mod Outgoing
pub mod Gaps
use portfolio_tracker_public.Prelude.{
  ◌≡◌, ◌≢◌, refl, String, List, [], ◌∷◌, map, Option, none, some, Bool, true, not, ◌||◌, ◌&&◌,
  if◌then◌else◌, ◌==◌, string_eq, contains, keep, All, In, Any, is_none, Bool-cases, Option-cases,
  inl, inr,
}
use portfolio_tracker_public.Prelude.Dict.{
  Dict, get, setdefault, values, AllEntries, setdefault-AllEntries, get-setdefault_self, Any-values,
}
use portfolio_tracker_public.Reconcile.Types.{
  MovementEvidence, CostBasisGapEvidence, TransferLinkRecord, ExternalCashflowClassificationRecord,
  ReconciliationTaskRecord, ReconciliationResult,
}
use portfolio_tracker_public.Reconcile.Matching.{
  tracked_crypto_sources, dedupe_movements, source_of, is_outgoing, is_deposit, transfer_candidates,
  deterministic_candidate,
}
use portfolio_tracker_public.Reconcile.Records.{
  transfer_link, external_withdrawal, unknown_outgoing_key, missing_cost_basis_key,
  unknown_outgoing_task, missing_cost_basis_task, missing_cost_basis_gaps,
}
use portfolio_tracker_public.Reconcile.Run.{
  Found, nothing_found, add_match, reconcile_movement, reconcile_each, add_gap_tasks, found_in,
  linked_deposit_keys, all_tasks, reconcile_accounting_evidence,
}

-- The dicts only gain keys.
record Grows (a b : Found) : Type 0 where
  links : (k : String) → get k a.transfer_links ≢ none → get k b.transfer_links ≢ none
  tasks : (k : String) → get k a.tasks ≢ none → get k b.tasks ≢ none
  cashflows : (k : String) → get k a.cashflows ≢ none → get k b.cashflows ≢ none

-- Each entry is filed under its own key.
record AreFiled (found : Found) : Type 0 where
  links : AllEntries (λ k link. k ≡ link.link_group_key) found.transfer_links
  tasks : AllEntries (λ k task. k ≡ task.task_key) found.tasks
  cashflows : AllEntries (λ k c. k ≡ c.classification_key) found.cashflows

-- What the dicts hold for one outgoing movement.
record IsHandled (deposits : List MovementEvidence) (w : MovementEvidence) (found : Found)
    : Type 0 where
  withdrawal :
      source_of w ≡ "xtb" → get (external_withdrawal w).classification_key found.cashflows ≢ none
  linked :
      contains tracked_crypto_sources (source_of w) ≡ true
      → (d : MovementEvidence) → deterministic_candidate w (transfer_candidates w deposits) ≡ some d
      → get (transfer_link w d).link_group_key found.transfer_links ≢ none
  asked :
      contains tracked_crypto_sources (source_of w) ≡ true
      → deterministic_candidate w (transfer_candidates w deposits) ≡ none
      → get (unknown_outgoing_key w.evidence_key) found.tasks ≢ none

module _ (digest : String → String) (deposits : List MovementEvidence) where
  add_match-AreFiled :
      (w : MovementEvidence) (cs : List MovementEvidence) (found : Found)
      (o : Option MovementEvidence)
      → AreFiled found
      → AreFiled (add_match digest w cs found o)
  unfolding add_match
  add_match-AreFiled w cs found none f = record {
    links = f.links;
    tasks = setdefault-AllEntries _ _ _ found.tasks refl f.tasks;
    cashflows = f.cashflows;
  }
  add_match-AreFiled w cs found (some d) f = record {
    links = setdefault-AllEntries _ _ _ found.transfer_links refl f.links;
    tasks = f.tasks;
    cashflows = f.cashflows;
  }

  reconcile_movement-AreFiled :
      (found : Found) (w : MovementEvidence)
      → AreFiled found
      → AreFiled (reconcile_movement digest deposits found w)
  unfolding reconcile_movement
  reconcile_movement-AreFiled found w f = elim (Bool-cases (is_outgoing w)) [
    | inr stays ↦ rw stays f
    | inl out ↦ elim (Bool-cases (source_of w == "xtb")) [
      | inl xtb ↦
          rw (out, xtb)
            (record {
              links = f.links;
              tasks = f.tasks;
              cashflows = setdefault-AllEntries _ _ _ found.cashflows refl f.cashflows;
            })
      | inr other ↦ elim (Bool-cases (contains tracked_crypto_sources (source_of w))) [
        | inl tracked ↦ rw (out, other, tracked) (add_match-AreFiled w _ found _ f)
        | inr unknown ↦ rw (out, other, unknown) f
      ]
    ]
  ]

  reconcile_each-AreFiled :
      (found : Found) (ws : List MovementEvidence)
      → AreFiled found
      → AreFiled (reconcile_each digest deposits found ws)
  unfolding reconcile_each
  reconcile_each-AreFiled found [] f = f
  reconcile_each-AreFiled found (w ∷ ws) f =
      reconcile_each-AreFiled (reconcile_movement digest deposits found w) ws
        (reconcile_movement-AreFiled found w f)
