-- ===== src/Statement/Trusted.antt =====
-- When the current value of a statement is trusted, and what it is.
use portfolio_tracker_public.Prelude.{
  and_assoc, and_parts, ◌≡◌, ◌↔◌, refl, sym, ◌∙◌, ap, List, [], ◌∷◌, ◌++◌, Option, none, some, Bool,
  true, false, not, ◌&&◌, ◌||◌, ◌==◌, string_eq, inl, inr, Bool-cases, is_none, get_or, All,
  concat_map,
}
use portfolio_tracker_public.Prelude.Int.{
  ℤ, pos, abs, ◌+ℤ◌, ◌-ℤ◌, ◌*ℤ◌, ◌≤ℤ◌, +ℤ_assoc, +ℤ-zero, zero-+ℤ,
}
use portfolio_tracker_public.Prelude.Decimal.{Decimal}
use portfolio_tracker_public.CashLedger.Types.{XtbCashLedger}
use portfolio_tracker_public.CashLedger.Ledger.{calculate_xtb_cash_ledger}
use portfolio_tracker_public.CashLedger.Trust.{IsUnderstood, calculate_xtb_cash_ledger_trusted}
use portfolio_tracker_public.Statement.Types.{
  XtbCurrentPositionEvidence, XtbStatementSourceKind, full_statement, daily_pdf, gmail_daily_pdf,
  XtbStatementEvidence, XtbStatementIssue, XtbBrokerCashSummary, XtbCurrentPositionSummary,
}
use portfolio_tracker_public.Statement.Reconcile.{
  cash_ledger_rows, summarize_by, summarize_positions, value_issue, evidence_issue, position_issues,
  source_issues, current_value_state, position_sum, reconcile_xtb_current_value_statement,
}

abbrev none_found : List XtbStatementIssue → Bool
none_found [] = true
none_found (i ∷ more) = false

-- A full statement, or one that was reconciled with a full one.
abbrev pub is_settled : XtbStatementSourceKind → Bool → Bool
is_settled full_statement reconciled = true
is_settled daily_pdf reconciled = reconciled
is_settled gmail_daily_pdf reconciled = reconciled

abbrev pub has_evidence : List XtbCurrentPositionEvidence → Bool → Bool
has_evidence [] proved = proved
has_evidence (p ∷ ps) proved = true

-- A position with a price or a value.
abbrev pub is_valued : XtbCurrentPositionEvidence → Bool
is_valued p = not (is_none p.market_price_usd) || not (is_none p.current_value_usd)

abbrev pub all_valued : List XtbCurrentPositionEvidence → Bool
all_valued [] = true
all_valued (p ∷ ps) = is_valued p && all_valued ps

none_found-append :
    (xs ys : List XtbStatementIssue) → none_found (xs ++ ys) ≡ (none_found xs && none_found ys)
none_found-append [] ys = refl
none_found-append (x ∷ xs) ys = refl

none_found-source_issues :
    (k : XtbStatementSourceKind) (r : Bool) → none_found (source_issues k r) ≡ is_settled k r
unfolding source_issues
none_found-source_issues full_statement r = refl
none_found-source_issues daily_pdf true = refl
none_found-source_issues daily_pdf false = refl
none_found-source_issues gmail_daily_pdf true = refl
none_found-source_issues gmail_daily_pdf false = refl

none_found-value_issue :
    (p : XtbCurrentPositionEvidence) (price value : Option ℤ)
    → none_found (value_issue p price value) ≡ (not (is_none price) || not (is_none value))
unfolding value_issue
none_found-value_issue p none none = refl
none_found-value_issue p none (some value) = refl
none_found-value_issue p (some price) value = refl

none_found-evidence_issue :
    (ps : List XtbCurrentPositionEvidence) (proved : Bool)
    → none_found (evidence_issue ps proved) ≡ has_evidence ps proved
unfolding evidence_issue
none_found-evidence_issue [] true = refl
none_found-evidence_issue [] false = refl
none_found-evidence_issue (p ∷ ps) proved = refl

none_found-values :
    (ps : List XtbCurrentPositionEvidence)
    → none_found (
        concat_map
          (λ (p : XtbCurrentPositionEvidence). value_issue p p.market_price_usd p.current_value_usd)
          ps)
      ≡ all_valued ps
none_found-values [] = refl
none_found-values (p ∷ ps) =
    none_found-append (value_issue p p.market_price_usd p.current_value_usd) _
    ∙ ap
        (λ b.
          b
          && none_found (
              concat_map
                (λ (p : XtbCurrentPositionEvidence).
                  value_issue p p.market_price_usd p.current_value_usd)
                ps))
        (none_found-value_issue p p.market_price_usd p.current_value_usd)
    ∙ ap (λ b. is_valued p && b) (none_found-values ps)

current_value_state-trusted :
    (sources found : List XtbStatementIssue) (cash : XtbBrokerCashSummary)
    → ((current_value_state sources found cash).state == "trusted")
      ≡ (none_found sources && (none_found found && cash.is_trusted))
unfolding current_value_state string_eq
current_value_state-trusted (i ∷ more) found cash = refl
current_value_state-trusted [] (i ∷ more) cash = refl
current_value_state-trusted [] [] cash = elim (Bool-cases cash.is_trusted) [
  | inl e ↦ rw e refl
  | inr e ↦ rw e refl
]

none_found-position_issues :
    (ps : List XtbCurrentPositionEvidence) (proved : Bool)
    → none_found (position_issues ps proved) ≡ (has_evidence ps proved && all_valued ps)
unfolding position_issues
none_found-position_issues ps proved =
    none_found-append (evidence_issue ps proved) _
    ∙ rw (none_found-evidence_issue ps proved, none_found-values ps) refl

abbrev pub ledger_of : XtbStatementEvidence → Decimal → XtbCashLedger
ledger_of s tolerance =
    calculate_xtb_cash_ledger (cash_ledger_rows s.cash_operations) s.broker_cash_balance_usd
      tolerance

abbrev pub is_proved : XtbStatementEvidence → Bool
is_proved s =
    is_settled s.source_kind s.reconciled_against_authoritative_statement
    && (has_evidence s.current_positions s.current_positions_proved
        && all_valued s.current_positions)

current_value_trusted_eq :
    (s : XtbStatementEvidence) (tolerance : Decimal)
    → (reconcile_xtb_current_value_statement s tolerance).current_value_trusted
      ≡ (is_proved s && (ledger_of s tolerance).trusted)
unfolding reconcile_xtb_current_value_statement
current_value_trusted_eq s tolerance =
    let sources = is_settled s.source_kind s.reconciled_against_authoritative_statement in
    let found =
      has_evidence s.current_positions s.current_positions_proved
      && all_valued s.current_positions in
    current_value_state-trusted _ _ _
    ∙ ap
        (λ b.
          b
          && (none_found (position_issues s.current_positions s.current_positions_proved)
              && (ledger_of s tolerance).trusted))
        (none_found-source_issues s.source_kind s.reconciled_against_authoritative_statement)
    ∙ ap (λ b. sources && (b && (ledger_of s tolerance).trusted))
        (none_found-position_issues s.current_positions s.current_positions_proved)
    ∙ sym (and_assoc sources found (ledger_of s tolerance).trusted)

-- The current value of a statement is trusted exactly when it is a full statement or was reconciled
-- with one, it shows positions or proves that there are none, every position has a price or a value,
-- every cash operation is one that the cash ledger understands, and the broker's balance is known and
-- within the tolerance of that ledger's.
pub current_value_trusted_iff :
    (s : XtbStatementEvidence) (tolerance : Decimal)
    → ((reconcile_xtb_current_value_statement s tolerance).current_value_trusted ≡ true) ↔ (
        (is_proved s ≡ true)
        × All IsUnderstood (cash_ledger_rows s.cash_operations)
        × ((total : Decimal) × (s.broker_cash_balance_usd ≡ some total)
            × (abs ((ledger_of s tolerance).cash_balance_usd -ℤ total) ≤ℤ tolerance)))
current_value_trusted_iff s tolerance =
    let e = current_value_trusted_eq s tolerance in
    let ledger =
      calculate_xtb_cash_ledger_trusted (cash_ledger_rows s.cash_operations)
        s.broker_cash_balance_usd tolerance in
    (
      λ h.
          let (proved, cash) =
            and_parts (is_proved s) (ledger_of s tolerance).trusted (sym e ∙ h) in
          let (rows, total) = ledger.0 cash in (proved, rows, total),
      λ (proved, rows, total). e ∙ rw (proved, ledger.1 (rows, total)) refl,
    )

-- A position's value, or else its quantity by its price.
abbrev worth_by : ℤ → Option ℤ → Option Decimal → Decimal
worth_by quantity none none = pos 0
worth_by quantity (some price) none = quantity *ℤ price
worth_by quantity none (some value) = value
worth_by quantity (some price) (some value) = value

abbrev pub positions_worth : List XtbCurrentPositionEvidence → Decimal
positions_worth [] = pos 0
positions_worth (p ∷ ps) =
    worth_by p.quantity p.market_price_usd p.current_value_usd +ℤ positions_worth ps

position_sum-append :
    (xs ys : List XtbCurrentPositionSummary)
    → position_sum (xs ++ ys) ≡ position_sum xs +ℤ position_sum ys
position_sum-append [] ys = sym (zero-+ℤ (position_sum ys))
position_sum-append (x ∷ xs) ys =
    ap (λ t. x.current_value_usd +ℤ t) (position_sum-append xs ys)
    ∙ sym (+ℤ_assoc x.current_value_usd (position_sum xs) (position_sum ys))

position_sum-summarize_by :
    (p : XtbCurrentPositionEvidence) (price : Option ℤ) (value : Option Decimal)
    → position_sum (summarize_by p price value) ≡ worth_by p.quantity price value
unfolding summarize_by
position_sum-summarize_by p none none = refl
position_sum-summarize_by p none (some value) = +ℤ-zero value
position_sum-summarize_by p (some price) none = +ℤ-zero (p.quantity *ℤ price)
position_sum-summarize_by p (some price) (some value) = +ℤ-zero value

position_sum-summarize_positions :
    (ps : List XtbCurrentPositionEvidence)
    → position_sum (summarize_positions ps) ≡ positions_worth ps
unfolding summarize_positions
position_sum-summarize_positions [] = refl
position_sum-summarize_positions (p ∷ ps) =
    position_sum-append (summarize_by p p.market_price_usd p.current_value_usd)
      (summarize_positions ps)
    ∙ ap (λ t. t +ℤ position_sum (summarize_positions ps))
        (position_sum-summarize_by p p.market_price_usd p.current_value_usd)
    ∙ ap (λ t. worth_by p.quantity p.market_price_usd p.current_value_usd +ℤ t)
        (position_sum-summarize_positions ps)

-- A trusted current value is the worth of all positions of the statement and the cash balance that the
-- broker states.
pub trusted_current_value_eq :
    (s : XtbStatementEvidence) (tolerance : Decimal)
    → (reconcile_xtb_current_value_statement s tolerance).current_value_trusted ≡ true
    → (total : Decimal) × (s.broker_cash_balance_usd ≡ some total)
      × ((reconcile_xtb_current_value_statement s tolerance).current_value_usd
          ≡ positions_worth s.current_positions +ℤ total)
unfolding reconcile_xtb_current_value_statement
trusted_current_value_eq s tolerance h =
    let (proved, rows, (total, known, close)) = (current_value_trusted_iff s tolerance).0 h in
    (
      total,
      known,
      ap (λ x. x +ℤ get_or s.broker_cash_balance_usd (ledger_of s tolerance).cash_balance_usd)
            (position_sum-summarize_positions s.current_positions)
          ∙ ap
              (λ o.
                positions_worth s.current_positions
                +ℤ get_or o (ledger_of s tolerance).cash_balance_usd)
              known,
    )
