-- ===== src/History/Steps.antt =====
-- What a position adds to the value that is rebuilt.
use portfolio_tracker_public.Prelude.{
  and_assoc, and_parts, ℕ, ◌≡◌, refl, sym, ◌∙◌, ap, String, List, [], ◌∷◌, ◌++◌, Option, none, some,
  Bool, true, false, not, ◌&&◌, string_eq, inl, inr, Option-cases, if◌then◌else◌, is_none, leb, ltb,
  arith,
}
use portfolio_tracker_public.Prelude.Int.{ℤ, pos, ◌+ℤ◌, ◌*ℤ◌, +ℤ_assoc, +ℤ-zero}
use portfolio_tracker_public.Prelude.Decimal.{Decimal}
use portfolio_tracker_public.Confidence.{
  Confidence, trusted, warning, provisional, review_required, blocked, confidence_eq, rank,
  max_from, max_confidence,
}
use portfolio_tracker_public.History.Types.{HistoricalPosition, SourceCoverageWindow, HistoryInputs}
use portfolio_tracker_public.History.Rebuild.{
  are_sensitive_metrics_visible, coverage_for_position, Rebuilt, block, add_coverage, add_priced,
  add_covered, add_position, add_positions,
}

-- A position whose source is covered and whose symbol has a price; one whose coverage is also sound.
module _ (i : HistoryInputs) where
  abbrev pub coverage_of : HistoricalPosition → Option SourceCoverageWindow
  coverage_of p = coverage_for_position i.as_of p.source i.source_coverage

  abbrev pub price_of : HistoricalPosition → Option ℤ
  price_of p = (i.price_lookup p.symbol i.as_of).price_usd

  abbrev pub is_valued : HistoricalPosition → Bool
  is_valued p = not (is_none (coverage_of p)) && not (is_none (price_of p))

  abbrev pub is_sound : HistoricalPosition → Bool
  is_sound p = elim (coverage_of p) [
    | none ↦ false
    | some c ↦ are_sensitive_metrics_visible c.confidence_state
  ]

  abbrev pub all_positions : (HistoricalPosition → Bool) → List HistoricalPosition → Bool
  all_positions q [] = true
  all_positions q (p ∷ ps) = q p && all_positions q ps

  abbrev pub price_or_zero : Option ℤ → ℤ
  price_or_zero none = pos 0
  price_or_zero (some price) = price

  -- The sum of the quantities by their prices.
  abbrev pub worth : List HistoricalPosition → Decimal
  worth [] = pos 0
  worth (p ∷ ps) = p.quantity *ℤ price_or_zero (price_of p) +ℤ worth ps

abbrev pub is_empty_list : List String → Bool
is_empty_list [] = true
is_empty_list (x ∷ xs) = false

is_empty_list-append : (xs : List String) (x : String) → is_empty_list (xs ++ (x ∷ [])) ≡ false
is_empty_list-append [] x = refl
is_empty_list-append (y ∷ ys) x = refl

-- What a step does to the three parts of the state.
pub record IsStep (r r' : Rebuilt) (valued sound : Bool) (value : Decimal) : Type 0 where
  pub blocks :
      is_empty_list r'.blocking_reason_codes ≡ (is_empty_list r.blocking_reason_codes && valued)
  pub counts : valued ≡ true → r'.reconstructed_value ≡ r.reconstructed_value +ℤ value
  pub grades :
      valued ≡ true
      → are_sensitive_metrics_visible (max_confidence r'.confidence_states)
        ≡ (are_sensitive_metrics_visible (max_confidence r.confidence_states) && sound)

visible_rank : (s : Confidence) → are_sensitive_metrics_visible s ≡ leb (rank s) 1
unfolding confidence_eq
visible_rank trusted = refl
visible_rank warning = refl
visible_rank provisional = refl
visible_rank review_required = refl
visible_rank blocked = refl

larger_rank :
    (m n : ℕ) (a b : Confidence)
    → rank a ≡ m
    → rank b ≡ n
    → leb (rank (if ltb m n then b else a)) 1 ≡ (leb m 1 && leb n 1)
larger_rank m n a b h e = ground arith

max_from-append_one :
    (acc : Confidence) (xs : List Confidence) (c : Confidence)
    → are_sensitive_metrics_visible (max_from acc (xs ++ (c ∷ [])))
      ≡ (are_sensitive_metrics_visible (max_from acc xs) && are_sensitive_metrics_visible c)
unfolding max_from
max_from-append_one acc [] c =
    visible_rank (if ltb (rank acc) (rank c) then c else acc)
    ∙ larger_rank (rank acc) (rank c) acc c refl refl
    ∙ sym (rw (visible_rank acc, visible_rank c) refl)
max_from-append_one acc (x ∷ xs) c =
    max_from-append_one (if ltb (rank acc) (rank x) then x else acc) xs c

and_true : (x : Bool) → x ≡ (x && true)
and_true true = refl
and_true false = refl

and_false : (x : Bool) → false ≡ (x && false)
and_false true = refl
and_false false = refl

block-IsStep :
    (r r' : Rebuilt) (code : String) (sound : Bool) (v : Decimal)
    → r'.blocking_reason_codes ≡ r.blocking_reason_codes
    → IsStep r (block code r') false sound v
block-IsStep r r' code sound v e = record {
  blocks =
      is_empty_list-append r'.blocking_reason_codes code
      ∙ and_false (is_empty_list r.blocking_reason_codes);
  counts = λ h. absurd (cc h);
  grades = λ h. absurd (cc h);
}

add_priced-IsStep :
    (p : HistoricalPosition) (c : SourceCoverageWindow) (o : Option ℤ) (price : ℤ) (r : Rebuilt)
    → (price' : ℤ) → o ≡ some price'
    → price ≡ price'
    → IsStep r
        (add_priced p o (add_coverage c r))
        true
        (are_sensitive_metrics_visible c.confidence_state)
        (p.quantity *ℤ price)
unfolding add_priced max_confidence
add_priced-IsStep p c o price r price' e same =
    rw (e, same)
      (record {
        blocks = and_true (is_empty_list r.blocking_reason_codes);
        counts = λ h. refl;
        grades = λ h. max_from-append_one trusted r.confidence_states c.confidence_state;
      })

is_sound-covered :
    (i : HistoryInputs) (p : HistoricalPosition) (c : SourceCoverageWindow)
    → coverage_of i p ≡ some c
    → is_sound i p ≡ are_sensitive_metrics_visible c.confidence_state
is_sound-covered i p c e = rw (is_sound, e) refl

add_position-IsStep :
    (i : HistoryInputs) (p : HistoricalPosition) (r : Rebuilt)
    → IsStep r
        (add_position i p r)
        (is_valued i p)
        (is_sound i p)
        (p.quantity *ℤ price_or_zero i (price_of i p))
unfolding add_position add_covered add_priced
add_position-IsStep i p r = elim (Option-cases (coverage_of i p)) [
  | inl e ↦ rw e (
      block-IsStep r r "missing_source_coverage" (is_sound i p)
        (p.quantity *ℤ price_or_zero i (price_of i p)) refl)
  | inr (c, e) ↦ elim (Option-cases (price_of i p)) [
    | inl f ↦
        rw (e, f)
          (block-IsStep r (add_coverage c r) "missing_historical_price" (is_sound i p)
            (p.quantity *ℤ pos 0) refl)
    | inr (price, f) ↦
        rw (e, f)
          (rw (is_sound-covered i p c e)
            (add_priced-IsStep p c (some price) price r price refl refl))
  ]
]

-- The state after the loop.
pub add_positions-IsStep :
    (i : HistoryInputs) (ps : List HistoricalPosition) (r : Rebuilt)
    → IsStep r
        (add_positions i ps r)
        (all_positions i (is_valued i) ps)
        (all_positions i (is_sound i) ps)
        (worth i ps)
unfolding add_positions
add_positions-IsStep i [] r = record {
  blocks = and_true (is_empty_list r.blocking_reason_codes);
  counts = λ h. sym (+ℤ-zero r.reconstructed_value);
  grades = λ h. and_true (are_sensitive_metrics_visible (max_confidence r.confidence_states));
}
add_positions-IsStep i (p ∷ ps) r =
    let one = add_position-IsStep i p r in
    let more = add_positions-IsStep i ps (add_position i p r) in
    let amount = p.quantity *ℤ price_or_zero i (price_of i p) in
    record {
      blocks =
          more.blocks
          ∙ ap (λ b. b && all_positions i (is_valued i) ps) one.blocks
          ∙ and_assoc (is_empty_list r.blocking_reason_codes) (is_valued i p)
              (all_positions i (is_valued i) ps);
      counts = λ h.
          let (a, b) = and_parts (is_valued i p) (all_positions i (is_valued i) ps) h in
          more.counts b
          ∙ ap (λ x. x +ℤ worth i ps) (one.counts a)
          ∙ +ℤ_assoc r.reconstructed_value amount (worth i ps);
      grades = λ h.
          let (a, b) = and_parts (is_valued i p) (all_positions i (is_valued i) ps) h in
          more.grades b
          ∙ ap (λ x. x && all_positions i (is_sound i) ps) (one.grades a)
          ∙ and_assoc (are_sensitive_metrics_visible (max_confidence r.confidence_states))
              (is_sound i p) (all_positions i (is_sound i) ps);
    }
