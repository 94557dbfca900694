-- ===== src/History/Latest.antt =====
-- The anchors that `_exact_anchors_for_date` chooses.
use portfolio_tracker_public.Prelude.{
  ◌≡◌, ◌↔◌, inl, inr, sym, ◌∙◌, ap, List, [], ◌∷◌, Bool, true, if◌then◌else◌, keep, All, All-mono,
  In-All, In, Bool-cases, arith,
}
use portfolio_tracker_public.Prelude.Int.{ℤ, leb_ℤ, ltb_ℤ, eqb_ℤ}
use portfolio_tracker_public.History.Types.{HistoricalValueAnchor}
use portfolio_tracker_public.History.Anchors.{
  is_same_day, latest_of, captured_at_latest, exact_anchors_for_date,
}

In-keep_inv :
    {A : Type 0} (p : A → Bool) (xs : List A) (a : A) → In a (keep p xs) → In a xs × (p a ≡ true)
In-keep_inv p [] a i = elim i [ ]
In-keep_inv {A} p (x ∷ xs) a i = elim (Bool-cases (p x)) [
  | inl e ↦
      let j : In a (x ∷ keep p xs) = rw e at i in
      elim j [
        | inl same ↦ (inl same, ap p (sym same) ∙ e)
        | inr later ↦ let (here, h) = In-keep_inv p xs a later in (inr here, h)
      ]
  | inr e ↦
      let j : In a (keep p xs) = rw e at i in let (here, h) = In-keep_inv p xs a j in (inr here, h)
]

In-keep :
    {A : Type 0} (p : A → Bool) (xs : List A) (a : A) → In a xs → p a ≡ true → In a (keep p xs)
In-keep p [] a i e = elim i [ ]
In-keep p (x ∷ xs) a i e = elim (Bool-cases (p x)) [
  | inl f ↦ rw f (elim i [ inl same ↦ inl same | inr later ↦ inr (In-keep p xs a later e) ])
  | inr f ↦ rw f (elim i [
    | inl same ↦ absurd (cc (sym f ∙ ap p same ∙ e))
    | inr later ↦ In-keep p xs a later e
  ])
]

In-keep_iff :
    {A : Type 0} (p : A → Bool) (xs : List A) (a : A) → In a (keep p xs) ↔ (In a xs × (p a ≡ true))
In-keep_iff p xs a = (λ i. In-keep_inv p xs a i, λ (i, e). In-keep p xs a i e)

leb_refl : (a : ℤ) → leb_ℤ a a ≡ true
leb_refl a = ground arith

leb_trans : (a b c : ℤ) → leb_ℤ a b ≡ true → leb_ℤ b c ≡ true → leb_ℤ a c ≡ true
leb_trans a b c h e = ground arith

eqb_of_leb : (a b : ℤ) → leb_ℤ a b ≡ true → leb_ℤ b a ≡ true → eqb_ℤ a b ≡ true
eqb_of_leb a b h e = ground arith

leb_of_eqb : (a b : ℤ) → eqb_ℤ a b ≡ true → leb_ℤ b a ≡ true
leb_of_eqb a b h = ground arith

abbrev IsUpTo : ℤ → HistoricalValueAnchor → Type 0
IsUpTo m b = leb_ℤ b.captured_at m ≡ true

abbrev larger : ℤ → HistoricalValueAnchor → ℤ
larger m a = if ltb_ℤ m a.captured_at then a.captured_at else m

larger-bounds :
    (m : ℤ) (a : HistoricalValueAnchor) → (leb_ℤ m (larger m a) ≡ true) × IsUpTo (larger m a) a
larger-bounds m a = (ground arith, ground arith)

latest_of-bounds :
    (m : ℤ) (xs : List HistoricalValueAnchor)
    → (leb_ℤ m (latest_of m xs) ≡ true) × All (IsUpTo (latest_of m xs)) xs
unfolding latest_of
latest_of-bounds m [] = (leb_refl m, tt)
latest_of-bounds m (a ∷ xs) =
    let (above, below) = larger-bounds m a in
    let (first, rest) = latest_of-bounds (larger m a) xs in
    let last = latest_of (larger m a) xs in
    (
      leb_trans m (larger m a) last above first,
      (leb_trans a.captured_at (larger m a) last below first, rest),
    )

-- A bound of all is a bound of the latest.
latest_of-least :
    (m : ℤ) (xs : List HistoricalValueAnchor) (n : ℤ)
    → leb_ℤ m n ≡ true
    → All (IsUpTo n) xs
    → leb_ℤ (latest_of m xs) n ≡ true
unfolding latest_of
latest_of-least m [] n h hs = h
latest_of-least m (a ∷ xs) n h hs = latest_of-least (larger m a) xs n (ground arith) hs.1

captured_at_latest_iff :
    (xs : List HistoricalValueAnchor) (a : HistoricalValueAnchor)
    → In a (captured_at_latest xs) ↔ (In a xs × All (IsUpTo a.captured_at) xs)
captured_at_latest_iff [] a = (λ i. elim i [ ], λ (i, h). i)
captured_at_latest_iff (x ∷ xs) a =
    let latest = latest_of x.captured_at xs in
    let (first, rest) = latest_of-bounds x.captured_at xs in
    (
      λ i.
          let (here, e) = (In-keep_iff (λ b. eqb_ℤ b.captured_at latest) (x ∷ xs) a).0 i in
          let above = leb_of_eqb a.captured_at latest e in
          (
            here,
            All-mono (IsUpTo latest) (IsUpTo a.captured_at)
                (λ b h. leb_trans b.captured_at latest a.captured_at h above) (x ∷ xs)
                (first, rest),
          ),
      λ (i, h).
          let above = latest_of-least x.captured_at xs a.captured_at h.0 h.1 in
          let below : leb_ℤ a.captured_at latest ≡ true =
            In-All (IsUpTo latest) (x ∷ xs) (first, rest) i in
          (In-keep_iff (λ b. eqb_ℤ b.captured_at latest) (x ∷ xs) a).1
            (i, eqb_of_leb a.captured_at latest below above),
    )

-- The anchors that are used are those of the day of the time, up to it, that none of these is later
-- than.
pub exact_anchors_for_date_iff :
    (as_of : ℤ) (anchors : List HistoricalValueAnchor) (a : HistoricalValueAnchor)
    → In a (exact_anchors_for_date as_of anchors) ↔ (
        (In a anchors × (is_same_day as_of a ≡ true))
        × All (λ b. leb_ℤ b.captured_at a.captured_at ≡ true) (keep (is_same_day as_of) anchors))
unfolding exact_anchors_for_date
exact_anchors_for_date_iff as_of anchors a =
    let (used, uses) = captured_at_latest_iff (keep (is_same_day as_of) anchors) a in
    let (kept, keeps) = In-keep_iff (is_same_day as_of) anchors a in
    (λ i. let (here, h) = used i in (kept here, h), λ (i, h). uses (keeps i, h))
