-- ===== src/Reconcile/Examples.antt =====
-- Runs of the reconciliation, and its theorems at concrete evidence. The digest is the identity.
use portfolio_tracker_public.Prelude.{
  ◌≡◌, refl, String, List, [], ◌∷◌, Option, none, some, string_eq, map, All, Any, In,
}
use portfolio_tracker_public.Prelude.Text.{lower, upper, strip, has_part, join_key}
use portfolio_tracker_public.Prelude.Dict.{Distinct, get, put, setdefault, values}
use portfolio_tracker_public.Prelude.Decimal.{Decimal, whole}
use portfolio_tracker_public.Prelude.Int.{pos, neg, ◌-ℤ◌, ◌+ℤ◌, ◌*ℤ◌}
use portfolio_tracker_public.Reconcile.Types.{
  MovementEvidence, CostBasisGapEvidence, ReconciliationResult, normalize_datetime,
}
use portfolio_tracker_public.Reconcile.Matching.{
  add_movement, dedupe_movements, source_of, asset_of, time_of, is_outgoing, is_deposit,
  is_candidate_quantity, is_transfer_candidate, transfer_candidates, same_text,
  has_exact_identifier_link, has_authoritative_control_total, is_exact_quantity, is_linked,
  deterministic_candidate,
}
use portfolio_tracker_public.Reconcile.Records.{
  evidence_of, transfer_link, external_withdrawal, outgoing_reasons, missing_cost_basis_gaps,
  unknown_outgoing_task, missing_cost_basis_task, missing_cost_basis_key,
}
use portfolio_tracker_public.Reconcile.Run.{
  add_match, reconcile_movement, reconcile_each, add_gap_tasks, found_in, linked_deposit_keys,
  all_tasks, reconcile_accounting_evidence,
}
use portfolio_tracker_public.Reconcile.Persist.{Tables, flushed, reconcile_and_persist_movements}
use portfolio_tracker_public.Reconcile.Persistence.{reconcile_and_persist_movements-twice}
use portfolio_tracker_public.Reconcile.Dedupe.{first_of, dedupe_movements_first}
use portfolio_tracker_public.Reconcile.Matched.{IsInternal, IsXtbWithdrawal}
use portfolio_tracker_public.Reconcile.Links.{
  IsNeutral, IsOutflow, reconcile_accounting_evidence_sound, reconcile_accounting_evidence_effects,
}
use portfolio_tracker_public.Reconcile.Coverage.Gaps.{IsUnpriced, missing_cost_basis_asked}

abbrev movement :
    String
    → String
    → Decimal
    → String
    → Option String
    → Option String
    → Option Decimal
    → MovementEvidence
movement source tx_type quantity key from to amount = record {
  source = source;
  tx_type = tx_type;
  asset_symbol = "usdt";
  quantity = quantity;
  occurred_at = record { wall_clock = pos 1_700_000_000_000_000; utc_offset = none };
  evidence_key = key;
  source_event_id = from;
  destination_event_id = to;
  authoritative_control_total_key = none;
  amount_usd = amount;
}

abbrev sent : MovementEvidence
sent = movement "Binance" "WITHDRAWAL" (neg (whole 100)) "b1" none (some "tx9") none

abbrev lost : MovementEvidence
lost = movement "binance" "withdrawal" (neg (whole 7)) "b2" none none none

abbrev arrived : MovementEvidence
arrived = movement "aster" "deposit" (whole 100) "a1" (some "tx9") none none

abbrev gift : MovementEvidence
gift = movement "aster" "deposit" (whole 5) "a2" none none none

abbrev cashed : MovementEvidence
cashed = movement "xtb" "withdrawal" (neg (whole 50)) "x1" none none (some (neg (whole 50)))

abbrev ledger : List MovementEvidence
ledger = sent ∷ lost ∷ arrived ∷ gift ∷ cashed ∷ sent ∷ []

abbrev digest : String → String
digest key = key

reconciled : List MovementEvidence → ReconciliationResult
unfolding reconcile_accounting_evidence all_tasks linked_deposit_keys found_in add_gap_tasks
    reconcile_each reconcile_movement add_match deterministic_candidate is_linked is_exact_quantity
    has_authoritative_control_total has_exact_identifier_link same_text transfer_candidates
    is_transfer_candidate is_candidate_quantity is_deposit is_outgoing time_of asset_of source_of
    dedupe_movements add_movement normalize_datetime evidence_of transfer_link external_withdrawal
    outgoing_reasons missing_cost_basis_gaps unknown_outgoing_task missing_cost_basis_task get put
    setdefault values lower upper strip has_part join_key ◌+ℤ◌ ◌-ℤ◌ ◌*ℤ◌ string_eq
reconciled ms = reconcile_accounting_evidence digest ms []

reconciled_runs :
    (map (λ link. link.link_group_key) (reconciled ledger).transfer_links ≡ "transfer:b1:a1" ∷ [])
    × (map (λ c. c.evidence_key) (reconciled ledger).external_cashflow_classifications ≡ "x1" ∷ [])
    × (map (λ t. t.task_type) (reconciled ledger).reconciliation_tasks
        ≡ "unknown_outgoing_transfer" ∷ "missing_cost_basis" ∷ [])
unfolding reconciled
reconciled_runs = (refl, refl, refl)

dedupe_movements_first_example :
    Distinct (map (λ m. m.evidence_key) (dedupe_movements ledger))
    × All (λ m. first_of m.evidence_key ledger ≡ some m) (dedupe_movements ledger)
    × ((key : String) (m : MovementEvidence)
        → first_of key ledger ≡ some m
        → In m (dedupe_movements ledger))
dedupe_movements_first_example = dedupe_movements_first ledger

sound_example :
    let result = reconcile_accounting_evidence digest ledger [] in
    All (IsInternal ledger) result.transfer_links
    × All (IsXtbWithdrawal ledger) result.external_cashflow_classifications
sound_example = reconcile_accounting_evidence_sound digest ledger []

effects_example :
    let result = reconcile_accounting_evidence digest ledger [] in
    All IsNeutral result.transfer_links × All IsOutflow result.external_cashflow_classifications
effects_example = reconcile_accounting_evidence_effects digest ledger []

asked_example :
    let tasks = (reconcile_accounting_evidence digest ledger []).reconciliation_tasks in
    ((m : MovementEvidence)
      → In m (dedupe_movements ledger)
      → IsUnpriced (linked_deposit_keys digest ledger) m
      → Any (λ task. task.task_key ≡ missing_cost_basis_key m.evidence_key) tasks)
    × ((g : CostBasisGapEvidence)
        → In g []
        → Any (λ task. task.task_key ≡ missing_cost_basis_key g.evidence_key) tasks)
asked_example = missing_cost_basis_asked digest ledger []

-- A second withdrawal to the destination of the first is linked with the same deposit.
abbrev sent_again : MovementEvidence
sent_again = movement "binance" "withdrawal" (neg (whole 100)) "b3" none (some "tx9") none

linked_twice :
    map
      (λ link. link.to_evidence_key)
      (reconciled (sent ∷ sent_again ∷ arrived ∷ [])).transfer_links
    ≡ "a1" ∷ "a1" ∷ []
unfolding reconciled
linked_twice = refl

twice_example :
    let stored : Tables = record { links = []; tasks = []; cashflows = [] } in
    let added = reconcile_and_persist_movements digest ledger [] stored in
    reconcile_and_persist_movements digest ledger [] (flushed stored added)
    ≡ record { links = []; tasks = []; cashflows = [] }
twice_example =
    reconcile_and_persist_movements-twice digest ledger []
      (record { links = []; tasks = []; cashflows = [] })
