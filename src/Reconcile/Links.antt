-- ===== src/Reconcile/Links.antt =====
-- What the reconciliation links and classifies, and what that does to the capital.
use mathlib.Core.Path.{sym}
use portfolio_tracker_public.Prelude.{
  ◌≡◌, ◌≢◌, ◌↔◌, ◌∙◌, refl, ap, String, List, none, some, string_eq, arith, All, In, All-mono,
  In-All,
}
use portfolio_tracker_public.Prelude.Decimal.{Decimal}
use portfolio_tracker_public.Prelude.Int.{ℤ, pos, abs, ◌-ℤ◌, ◌≤ℤ◌, int_laws}
use portfolio_tracker_public.Reconcile.Types.{
  MovementEvidence, CostBasisGapEvidence, TransferLinkRecord, ExternalCashflowClassificationRecord,
}
use portfolio_tracker_public.Reconcile.Matching.{dedupe_movements, quantity_abs}
use portfolio_tracker_public.Reconcile.Records.{transfer_link, external_withdrawal}
use portfolio_tracker_public.Reconcile.Run.{reconcile_accounting_evidence}
use portfolio_tracker_public.Reconcile.Dedupe.{dedupe_movements-In}
use portfolio_tracker_public.Reconcile.Matched.{IsInternal, IsXtbWithdrawal, unique_links}

kept_stands :
    (ms : List MovementEvidence) (w : MovementEvidence) → In w (dedupe_movements ms) → In w ms
kept_stands ms w = In-All (λ m. In m ms) (dedupe_movements ms) (dedupe_movements-In ms)

IsInternal-kept :
    (ms : List MovementEvidence) (link : TransferLinkRecord)
    → IsInternal (dedupe_movements ms) link
    → IsInternal ms link
IsInternal-kept ms link (w, d, m, e) = (
  w,
  d,
  record {
    from_evidence = kept_stands ms w m.from_evidence;
    to_evidence = kept_stands ms d m.to_evidence;
    goes_out = m.goes_out;
    comes_in = m.comes_in;
    from_tracked = m.from_tracked;
    to_tracked = m.to_tracked;
    other_key = m.other_key;
    same_asset = m.same_asset;
    in_window = m.in_window;
    same_quantity = m.same_quantity;
    linked = m.linked;
  },
  e,
)

-- Every transfer link that the reconciliation reports joins an outgoing movement of a tracked source
-- with a deposit, both from the evidence, under other keys, of the same asset and quantity, at most
-- two days apart, that share an identifier or a control total; the record is the one of that pair.
-- Every classified cashflow is that of an outgoing XTB movement of the evidence.
pub reconcile_accounting_evidence_sound :
    (digest : String → String) (ms : List MovementEvidence) (gaps : List CostBasisGapEvidence)
    → let result = reconcile_accounting_evidence digest ms gaps in
      All (IsInternal ms) result.transfer_links
      × All (IsXtbWithdrawal ms) result.external_cashflow_classifications
reconcile_accounting_evidence_sound digest ms gaps =
    let (links, cashflows) = unique_links digest ms gaps in
    (
      All-mono _ (IsInternal ms) (IsInternal-kept ms) _ links,
      All-mono _ (IsXtbWithdrawal ms)
          (λ c h. let (w, i, out, xtb, e) = h in (w, kept_stands ms w i, out, xtb, e)) _ cashflows,
    )

-- What a link and a classified withdrawal do to the capital: nothing, and never more than nothing.
abbrev pub IsNeutral : TransferLinkRecord → Type 0
IsNeutral link =
    (link.capital_effect_usd ≡ pos 0)
    × (link.quantity_delta ≡ pos 0)
    × (link.from_quantity ≡ link.to_quantity)
    × (link.from_evidence_key ≢ link.to_evidence_key)

abbrev pub IsOutflow : ExternalCashflowClassificationRecord → Type 0
IsOutflow c =
    ((a : Decimal) → c.capital_effect_usd ≡ some a → a ≤ℤ pos 0)
    × ((c.capital_effect_usd ≡ none) ↔ (c.amount_usd ≡ none))

self_gap : (a : ℤ) → a -ℤ a ≡ pos 0
self_gap a = omega int_laws

zero_gap : (a b : ℤ) → b ≡ a → abs (a -ℤ b) ≡ pos 0
zero_gap a b e = ap abs (ap (◌-ℤ◌ a) e ∙ self_gap a)

IsInternal-IsNeutral :
    (ms : List MovementEvidence) (link : TransferLinkRecord) → IsInternal ms link → IsNeutral link
unfolding transfer_link
IsInternal-IsNeutral ms link (w, d, m, e) = rw e (
  refl,
  zero_gap (quantity_abs w) d.quantity m.same_quantity,
  sym m.same_quantity,
  λ same. m.other_key (sym same),
)

IsXtbWithdrawal-IsOutflow :
    (ms : List MovementEvidence) (c : ExternalCashflowClassificationRecord)
    → IsXtbWithdrawal ms c
    → IsOutflow c
unfolding external_withdrawal
IsXtbWithdrawal-IsOutflow ms c (w, i, out, xtb, e) = rw e (ground arith)

-- A reported transfer never changes the capital: its effect and its quantity difference are zero and
-- its two evidence keys differ. A classified XTB withdrawal never adds capital, and has no effect
-- exactly when the movement has no amount.
pub reconcile_accounting_evidence_effects :
    (digest : String → String) (ms : List MovementEvidence) (gaps : List CostBasisGapEvidence)
    → let result = reconcile_accounting_evidence digest ms gaps in
      All IsNeutral result.transfer_links × All IsOutflow result.external_cashflow_classifications
reconcile_accounting_evidence_effects digest ms gaps =
    let (links, cashflows) = reconcile_accounting_evidence_sound digest ms gaps in
    (
      All-mono (IsInternal ms) IsNeutral (IsInternal-IsNeutral ms) _ links,
      All-mono (IsXtbWithdrawal ms) IsOutflow (IsXtbWithdrawal-IsOutflow ms) _ cashflows,
    )
