-- ===== src/Reconcile/Matching.antt =====
-- Which movements go out, which come in, and which deposits may be where a withdrawal went.
use portfolio_tracker_public.Prelude.{
  String, List, [], ◌∷◌, Option, none, some, Bool, true, false, not, ◌&&◌, ◌||◌, if◌then◌else◌,
  ◌==◌, string_eq, contains, keep,
}
use portfolio_tracker_public.Prelude.Text.{lower, upper, strip, has_part, is_truthy}
use portfolio_tracker_public.Prelude.Dict.{setdefault, values, Dict}
use portfolio_tracker_public.Prelude.Decimal.{Decimal, widen, basis_points}
use portfolio_tracker_public.Prelude.Int.{ℤ, pos, abs, ◌-ℤ◌, ltb_ℤ, leb_ℤ, eqb_ℤ}
use portfolio_tracker_public.Reconcile.Types.{MovementEvidence, normalize_datetime}

abbrev pub tracked_crypto_sources : List String
tracked_crypto_sources = "binance" ∷ "aster" ∷ "hyperliquid" ∷ "tracked_wallet" ∷ []

abbrev pub transfer_destinations : List String
transfer_destinations = "aster" ∷ "hyperliquid" ∷ "tracked_wallet" ∷ "binance" ∷ []

-- Two days, in microseconds.
abbrev pub transfer_window : ℤ
transfer_window = pos 172_800_000_000

unfoldable pub add_movement :
    Dict String MovementEvidence → List MovementEvidence → Dict String MovementEvidence
add_movement deduped [] = deduped
add_movement deduped (m ∷ ms) = add_movement (setdefault m.evidence_key m deduped) ms

-- `_dedupe_movements`
unfoldable pub dedupe_movements : List MovementEvidence → List MovementEvidence
dedupe_movements movements = values (add_movement [] movements)

-- `_source`, `_asset`, `_occurred_at`, `_quantity_abs`
unfoldable pub source_of : MovementEvidence → String
source_of m = lower (strip m.source)

unfoldable pub asset_of : MovementEvidence → String
asset_of m = upper (strip m.asset_symbol)

unfoldable pub time_of : MovementEvidence → ℤ
time_of m = normalize_datetime m.occurred_at

abbrev pub quantity_abs : MovementEvidence → Decimal
quantity_abs m = abs m.quantity

unfoldable pub is_outgoing : MovementEvidence → Bool
is_outgoing m =
    let tx_type = lower m.tx_type in
    ltb_ℤ (pos 0) (quantity_abs m)
    && (has_part "withdraw" tx_type
        || has_part "outgoing" tx_type
        || has_part "transfer_out" tx_type)

unfoldable pub is_deposit : MovementEvidence → Bool
is_deposit m =
    let tx_type = lower m.tx_type in
    if has_part "transfer_out" tx_type
    then false
    else ltb_ℤ (pos 0) m.quantity
      && (has_part "deposit" tx_type
          || has_part "incoming" tx_type
          || has_part "transfer_in" tx_type
          || has_part "transfer_candidate" tx_type)

unfoldable pub is_candidate_quantity : MovementEvidence → MovementEvidence → Bool
is_candidate_quantity withdrawal deposit =
    let withdrawn = quantity_abs withdrawal in
    let delta = abs (deposit.quantity -ℤ withdrawn) in
    if eqb_ℤ withdrawn (pos 0)
    then eqb_ℤ deposit.quantity (pos 0)
    else if eqb_ℤ delta (pos 0)
    then true
    else leb_ℤ (widen delta) (basis_points withdrawn 100)

unfoldable pub is_transfer_candidate : MovementEvidence → MovementEvidence → Bool
is_transfer_candidate withdrawal deposit =
    not (deposit.evidence_key == withdrawal.evidence_key)
    && contains transfer_destinations (source_of deposit)
    && asset_of deposit == asset_of withdrawal
    && leb_ℤ (abs (time_of deposit -ℤ time_of withdrawal)) transfer_window
    && is_candidate_quantity withdrawal deposit

-- `_transfer_candidates`
unfoldable pub transfer_candidates :
    MovementEvidence → List MovementEvidence → List MovementEvidence
transfer_candidates withdrawal deposits = keep (is_transfer_candidate withdrawal) deposits

-- `bool(a and b and a == b)`
unfoldable pub same_text : Option String → Option String → Bool
same_text (some a) (some b) = is_truthy a && is_truthy b && a == b
same_text _ _ = false

unfoldable pub has_exact_identifier_link : MovementEvidence → MovementEvidence → Bool
has_exact_identifier_link withdrawal deposit =
    same_text withdrawal.destination_event_id deposit.source_event_id

unfoldable pub has_authoritative_control_total : MovementEvidence → MovementEvidence → Bool
has_authoritative_control_total withdrawal deposit =
    same_text withdrawal.authoritative_control_total_key deposit.authoritative_control_total_key

-- The two tests of `_deterministic_candidate`: the exact quantity, and a link.
unfoldable pub is_exact_quantity : MovementEvidence → MovementEvidence → Bool
is_exact_quantity withdrawal candidate = eqb_ℤ candidate.quantity (quantity_abs withdrawal)

unfoldable pub is_linked : MovementEvidence → MovementEvidence → Bool
is_linked withdrawal candidate =
    has_exact_identifier_link withdrawal candidate
    || has_authoritative_control_total withdrawal candidate

abbrev pub only_one : List MovementEvidence → Option MovementEvidence
only_one (c ∷ []) = some c
only_one _ = none

-- `_deterministic_candidate`
unfoldable pub deterministic_candidate :
    MovementEvidence → List MovementEvidence → Option MovementEvidence
deterministic_candidate withdrawal candidates =
    only_one (keep (is_linked withdrawal) (keep (is_exact_quantity withdrawal) candidates))
