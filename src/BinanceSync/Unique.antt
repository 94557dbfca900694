-- ===== src/BinanceSync/Unique.antt =====
-- What `_append_unique_records` keeps.
use portfolio_tracker_public.Prelude.{
  ◌≡◌, refl, sym, ◌∙◌, ap, List, [], ◌∷◌, ◌++◌, Bool, true, false, not, ◌==◌, string_eq, eq_of_==,
  contains, if◌then◌else◌, arith, Bool-cases, inl, inr, keep,
}
use portfolio_tracker_public.BinanceSync.Pages.{
  Transaction, Collected, append_unique_record, append_unique_records, nothing_collected,
}
use mathlib.Core.List.{append-nil, append_assoc}

-- The first record of each fingerprint.
abbrev pub firsts : List Transaction → List Transaction
firsts [] = []
firsts (x ∷ xs) = x ∷ keep (λ r. not (r.fingerprint == x.fingerprint)) (firsts xs)

keep-keep :
    (p q r : Transaction → Bool) (xs : List Transaction)
    → ((x : Transaction) → r x ≡ (if p x then q x else false))
    → keep q (keep p xs) ≡ keep r xs
keep-keep p q r [] h = refl
keep-keep p q r (x ∷ xs) h = let e = h x in let rest = keep-keep p q r xs h in ground arith

abbrev unseen : Collected → Transaction → Bool
unseen got r = not (contains got.seen_fingerprints r.fingerprint)

append_unique_record-seen :
    (got : Collected) (x : Transaction)
    → contains got.seen_fingerprints x.fingerprint ≡ true
    → append_unique_record got x ≡ got
unfolding append_unique_record
append_unique_record-seen got x seen = rw seen refl

append_unique_record-new :
    (got : Collected) (x : Transaction)
    → contains got.seen_fingerprints x.fingerprint ≡ false
    → append_unique_record got x ≡ record {
      records = got.records ++ (x ∷ []);
      seen_fingerprints = x.fingerprint ∷ got.seen_fingerprints;
    }
unfolding append_unique_record
append_unique_record-new got x new = rw new refl

-- A record with the fingerprint of a seen record is seen.
unseen-other :
    (got : Collected) (x : Transaction)
    → contains got.seen_fingerprints x.fingerprint ≡ true
    → (r : Transaction)
    → unseen got r ≡ (if not (r.fingerprint == x.fingerprint) then unseen got r else false)
unseen-other got x seen r = elim (Bool-cases (r.fingerprint == x.fingerprint)) [
  | inl same ↦
      let e = eq_of_== r.fingerprint x.fingerprint same in
      let gone = ap (λ f. not (contains got.seen_fingerprints f)) e in rw same (gone ∙ ap not seen)
  | inr other ↦ rw other refl
]

-- A record is unseen after a new one when it is not of its fingerprint and was unseen before.
unseen-new :
    (got : Collected) (x r : Transaction)
    → not (contains (x.fingerprint ∷ got.seen_fingerprints) r.fingerprint)
      ≡ (if not (r.fingerprint == x.fingerprint) then unseen got r else false)
unseen-new got x r = elim (Bool-cases (r.fingerprint == x.fingerprint)) [
  | inl same ↦ rw same refl
  | inr other ↦ rw other refl
]

append_unique_records-firsts :
    (got : Collected) (xs : List Transaction)
    → (append_unique_records got xs).records ≡ got.records ++ keep (unseen got) (firsts xs)
unfolding append_unique_records
append_unique_records-firsts got [] = sym (append-nil _)
append_unique_records-firsts got (x ∷ xs) =
    elim (Bool-cases (contains got.seen_fingerprints x.fingerprint)) [
      | inl seen ↦
          let left =
            keep-keep (λ r. not (r.fingerprint == x.fingerprint)) (unseen got) (unseen got)
              (firsts xs) (unseen-other got x seen) in
          ap (λ g. (append_unique_records g xs).records) (append_unique_record-seen got x seen)
          ∙ append_unique_records-firsts got xs
          ∙ rw seen (ap (λ rs. got.records ++ rs) (sym left))
      | inr new ↦
          ap (λ g. (append_unique_records g xs).records) (append_unique_record-new got x new)
          ∙ append_unique_records-firsts _ xs
          ∙ append_assoc got.records (x ∷ []) _
          ∙ rw new (
              ap (λ rs. got.records ++ x ∷ rs)
                (sym (
                  keep-keep (λ r. not (r.fingerprint == x.fingerprint)) (unseen got) _ (firsts xs)
                    (unseen-new got x))))
    ]

pub append_unique_records-nothing :
    (xs : List Transaction) → (append_unique_records nothing_collected xs).records ≡ firsts xs
append_unique_records-nothing xs =
    append_unique_records-firsts nothing_collected xs ∙ keep_every (firsts xs)
  where
    keep_every : (rs : List Transaction) → keep (λ r. true) rs ≡ rs
    keep_every [] = refl
    keep_every (r ∷ rs) = ap (λ ys. r ∷ ys) (keep_every rs)
