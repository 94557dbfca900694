-- ===== src/Reconcile/Matched.antt =====
-- Which pairs of movements the reconciliation links, and what it classifies as a withdrawal.
use mathlib.Core.Path.{subst}
use portfolio_tracker_public.Prelude.{
  ◌≡◌, ◌≢◌, refl, String, List, [], ◌∷◌, Option, none, some, Bool, true, not, ◌&&◌, ◌==◌, eq_of_==,
  string_eq, contains, keep, arith, All, In, All-keep, All-In, Bool-cases, inl, inr,
}
use portfolio_tracker_public.Prelude.Dict.{AllEntries, setdefault-AllEntries, All-values}
use portfolio_tracker_public.Prelude.Int.{ℤ, abs, ◌-ℤ◌, ◌≤ℤ◌, eqb_ℤ, leb_ℤ}
use portfolio_tracker_public.Reconcile.Types.{
  MovementEvidence, CostBasisGapEvidence, TransferLinkRecord, ExternalCashflowClassificationRecord,
}
use portfolio_tracker_public.Reconcile.Matching.{
  tracked_crypto_sources, transfer_destinations, transfer_window, dedupe_movements, source_of,
  asset_of, time_of, quantity_abs, is_outgoing, is_deposit, is_transfer_candidate,
  transfer_candidates, is_exact_quantity, is_linked, only_one, deterministic_candidate,
}
use portfolio_tracker_public.Reconcile.Records.{transfer_link, external_withdrawal}
use portfolio_tracker_public.Reconcile.Run.{
  Found, nothing_found, add_match, reconcile_movement, reconcile_each, found_in,
  reconcile_accounting_evidence,
}

-- A deposit that may be linked with a withdrawal: both from the evidence, other keys, the same
-- asset, at most two days apart, the same quantity, and an identifier or a control total in common.
pub record IsMatch (ms : List MovementEvidence) (w d : MovementEvidence) : Type 0 where
  pub from_evidence : In w ms
  pub to_evidence : In d ms
  pub goes_out : is_outgoing w ≡ true
  pub comes_in : is_deposit d ≡ true
  pub from_tracked : contains tracked_crypto_sources (source_of w) ≡ true
  pub to_tracked : contains transfer_destinations (source_of d) ≡ true
  pub other_key : d.evidence_key ≢ w.evidence_key
  pub same_asset : asset_of d ≡ asset_of w
  pub in_window : abs (time_of d -ℤ time_of w) ≤ℤ transfer_window
  pub same_quantity : d.quantity ≡ quantity_abs w
  pub linked : is_linked w d ≡ true

-- What the tests of a chosen deposit say.
pub record IsChosen (w d : MovementEvidence) : Type 0 where
  is_candidate : is_transfer_candidate w d ≡ true
  exact : is_exact_quantity w d ≡ true
  linked : is_linked w d ≡ true

only_one-All :
    (P : MovementEvidence → Type 0) (xs : List MovementEvidence) (d : MovementEvidence)
    → All P xs
    → only_one xs ≡ some d
    → P d
only_one-All P [] d h e = cc
only_one-All P (x ∷ []) d h e = let same : x ≡ d = ground arith in subst P same h.0
only_one-All P (x ∷ y ∷ xs) d h e = cc

-- The deposit that `_deterministic_candidate` picks passed every test, and is one of the deposits.
pub chosen :
    (P : MovementEvidence → Type 0) (w d : MovementEvidence) (deposits : List MovementEvidence)
    → All P deposits
    → deterministic_candidate w (transfer_candidates w deposits) ≡ some d
    → P d × IsChosen w d
unfolding deterministic_candidate transfer_candidates
chosen P w d deposits h e =
    let candidates = All-keep P (is_transfer_candidate w) deposits h in
    let exact = All-keep _ (is_exact_quantity w) _ candidates in
    let linked = All-keep _ (is_linked w) _ exact in
    let found = only_one-All _ _ d linked e in
    (found.0.0.0, record { is_candidate = found.0.0.1; exact = found.0.1; linked = found.1 })

five_tests :
    (a b c d e : Bool)
    → (a && b && c && d && e) ≡ true
    → (a ≡ true) × (b ≡ true) × (c ≡ true) × (d ≡ true) × (e ≡ true)
five_tests a b c d e h = ground arith

differ : (a b : String) → not (a == b) ≡ true → a ≢ b
differ a b h = ground arith

within : (a b : ℤ) → leb_ℤ a b ≡ true → a ≤ℤ b
within a b h = ground arith

equal : (a b : ℤ) → eqb_ℤ a b ≡ true → a ≡ b
equal a b h = ground arith

IsChosen-IsMatch :
    (ms : List MovementEvidence) (w d : MovementEvidence)
    → In w ms
    → In d ms
    → is_outgoing w ≡ true
    → is_deposit d ≡ true
    → contains tracked_crypto_sources (source_of w) ≡ true
    → IsChosen w d
    → IsMatch ms w d
unfolding is_transfer_candidate is_exact_quantity
IsChosen-IsMatch ms w d iw id out dep tracked c =
    let (key, to, asset, window, quantity) = five_tests _ _ _ _ _ c.is_candidate in
    record {
      from_evidence = iw;
      to_evidence = id;
      goes_out = out;
      comes_in = dep;
      from_tracked = tracked;
      to_tracked = to;
      other_key = differ _ _ key;
      same_asset = eq_of_== _ _ asset;
      in_window = within (abs (time_of d -ℤ time_of w)) transfer_window window;
      same_quantity = equal d.quantity (quantity_abs w) c.exact;
      linked = c.linked;
    }

-- A link between matching movements of the evidence.
abbrev pub IsInternal : List MovementEvidence → TransferLinkRecord → Type 0
IsInternal ms link =
    (w : MovementEvidence) × (d : MovementEvidence) × IsMatch ms w d × (link ≡ transfer_link w d)

-- A classification of an outgoing movement of the evidence whose source is XTB.
abbrev pub IsXtbWithdrawal : List MovementEvidence → ExternalCashflowClassificationRecord → Type 0
IsXtbWithdrawal ms cashflow =
    (w : MovementEvidence) × In w ms
    × (is_outgoing w ≡ true)
    × (source_of w ≡ "xtb")
    × (cashflow ≡ external_withdrawal w)

record AreSound (ms : List MovementEvidence) (found : Found) : Type 0 where
  links : AllEntries (λ k link. IsInternal ms link) found.transfer_links
  cashflows : AllEntries (λ k c. IsXtbWithdrawal ms c) found.cashflows

-- The deposits that the loop looks at.
abbrev AreDeposits : List MovementEvidence → List MovementEvidence → Type 0
AreDeposits ms = All (λ d. In d ms × (is_deposit d ≡ true))

module _ (digest : String → String) (ms deposits : List MovementEvidence) where
  add_match-AreSound :
      (w : MovementEvidence) (found : Found) (o : Option MovementEvidence)
      → In w ms
      → is_outgoing w ≡ true
      → contains tracked_crypto_sources (source_of w) ≡ true
      → AreDeposits ms deposits
      → deterministic_candidate w (transfer_candidates w deposits) ≡ o
      → AreSound ms found
      → AreSound ms (add_match digest w (transfer_candidates w deposits) found o)
  unfolding add_match
  add_match-AreSound w found none iw out tracked ds e s = record {
    links = s.links;
    cashflows = s.cashflows;
  }
  add_match-AreSound w found (some d) iw out tracked ds e s =
      let (dep, c) = chosen (λ x. In x ms × (is_deposit x ≡ true)) w d deposits ds e in
      let matched = IsChosen-IsMatch ms w d iw dep.0 out dep.1 tracked c in
      record {
        links =
            setdefault-AllEntries _ _ (transfer_link w d) found.transfer_links (w, d, matched, refl)
              s.links;
        cashflows = s.cashflows;
      }

  reconcile_movement-AreSound :
      (found : Found) (w : MovementEvidence)
      → In w ms
      → AreDeposits ms deposits
      → AreSound ms found
      → AreSound ms (reconcile_movement digest deposits found w)
  unfolding reconcile_movement
  reconcile_movement-AreSound found w iw ds s = elim (Bool-cases (is_outgoing w)) [
    | inr stays ↦ rw stays s
    | inl out ↦ elim (Bool-cases (source_of w == "xtb")) [
      | inl xtb ↦
          rw (out, xtb)
            (record {
              links = s.links;
              cashflows =
                  setdefault-AllEntries _ _ (external_withdrawal w) found.cashflows
                    (w, iw, out, eq_of_== _ _ xtb, refl) s.cashflows;
            })
      | inr other ↦ elim (Bool-cases (contains tracked_crypto_sources (source_of w))) [
        | inl tracked ↦
            rw (out, other, tracked) (add_match-AreSound w found _ iw out tracked ds refl s)
        | inr unknown ↦ rw (out, other, unknown) s
      ]
    ]
  ]

  reconcile_each-AreSound :
      (found : Found) (ws : List MovementEvidence)
      → All (λ w. In w ms) ws
      → AreDeposits ms deposits
      → AreSound ms found
      → AreSound ms (reconcile_each digest deposits found ws)
  unfolding reconcile_each
  reconcile_each-AreSound found [] iws ds s = s
  reconcile_each-AreSound found (w ∷ ws) iws ds s =
      reconcile_each-AreSound (reconcile_movement digest deposits found w) ws iws.1 ds
        (reconcile_movement-AreSound found w iws.0 ds s)

-- The same of the movements that deduplication keeps.
found_in-AreSound :
    (digest : String → String) (ms : List MovementEvidence)
    → AreSound (dedupe_movements ms) (found_in digest ms)
unfolding found_in
found_in-AreSound digest ms =
    let unique = dedupe_movements ms in
    let members = All-In (λ x. In x unique) unique (λ x i. i) in
    reconcile_each-AreSound digest unique (keep is_deposit unique) nothing_found unique members
      (All-keep _ is_deposit unique members) (record { links = tt; cashflows = tt })

pub unique_links :
    (digest : String → String) (ms : List MovementEvidence) (gaps : List CostBasisGapEvidence)
    → let result = reconcile_accounting_evidence digest ms gaps in
      All (IsInternal (dedupe_movements ms)) result.transfer_links
      × All (IsXtbWithdrawal (dedupe_movements ms)) result.external_cashflow_classifications
unfolding reconcile_accounting_evidence
unique_links digest ms gaps =
    let s = found_in-AreSound digest ms in
    (All-values _ _ (λ k l h. h) _ s.links, All-values _ _ (λ k c h. h) _ s.cashflows)
