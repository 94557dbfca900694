-- ===== src/Prelude/Dict.antt =====
-- Python's dicts in insertion order, as the services use them: `setdefault`, `get`, and
-- `dict.fromkeys` to drop repeated entries.
use portfolio_tracker_public.Prelude.Tests.{if◌then◌else◌, Bool-cases, get_or, is_none}
use portfolio_tracker_public.Prelude.Equality.{Eq, ◌==◌, contains, contains-append, eq_of_==}
use portfolio_tracker_public.Prelude.Lists.{All, Any}
use mathlib.Core.Path.{◌≡◌, refl}
use mathlib.Core.Logic.{◌≢◌, inl, inr}
use mathlib.Core.Bool.{false, ◌||◌, not}
use mathlib.Core.Option.{Option, none, some}
use mathlib.Core.List.{List, [], ◌∷◌, ◌++◌, map}
use native.Mathlib.Omega.{arith}

abbrev pub Dict {ℓ κ} : Type ℓ → Type κ → Type (ℓ ⊔ κ)
Dict K V = List (K × V)

module _ {ℓ κ} {K : Type ℓ} {V : Type κ} where
  unfoldable pub values : Dict K V → List V
  values [] = []
  values ((k, v) ∷ d) = v ∷ values d

module _ {ℓ κ} {K : Type ℓ} {V : Type κ} ⦃e : Eq K⦄ where
  unfoldable pub get : K → Dict K V → Option V
  get k [] = none
  get k ((j, v) ∷ d) = if k == j then some v else get k d

  -- `d.setdefault(k, v)`: the first value stays.
  unfoldable pub setdefault : K → V → Dict K V → Dict K V
  setdefault k v [] = (k, v) ∷ []
  setdefault k v ((j, w) ∷ d) = if k == j then (j, w) ∷ d else (j, w) ∷ setdefault k v d

  -- `d[k] = v`
  unfoldable pub put : K → V → Dict K V → Dict K V
  put k v [] = (k, v) ∷ []
  put k v ((j, w) ∷ d) = if k == j then (j, v) ∷ d else (j, w) ∷ put k v d

module _ {ℓ} {A : Type ℓ} ⦃e : Eq A⦄ where
  -- `tuple(dict.fromkeys(xs))`: the entries in order of first occurrence.
  unfoldable pub add_keys : List A → List A → List A
  add_keys acc [] = acc
  add_keys acc (x ∷ xs) = add_keys (if contains acc x then acc else acc ++ x ∷ []) xs

  unfoldable pub fromkeys : List A → List A
  unfolding add_keys
  fromkeys xs = add_keys [] xs

  abbrev pub Distinct : List A → Type 0
  Distinct [] = Unit
  Distinct (x ∷ xs) = (contains xs x ≡ false) × Distinct xs

module _ {ℓ κ} {K : Type ℓ} {V : Type κ} ⦃e : Eq K⦄ where
  pub get-setdefault :
      (j k : K) (v : V) (d : Dict K V)
      → get j (setdefault k v d) ≡ (if j == k then some (get_or (get k d) v) else get j d)
  unfolding get setdefault
  get-setdefault j k v [] = ground arith
  get-setdefault j k v ((i, w) ∷ d) = ground (arith, get-setdefault j k v d)

  pub get-setdefault_self : (k : K) (v : V) (d : Dict K V) → get k (setdefault k v d) ≢ none
  get-setdefault_self k v d = ground (arith, get-setdefault k k v d)

  -- A key that is present stays present.
  pub get-setdefault_keeps :
      (j k : K) (v : V) (d : Dict K V) → get j d ≢ none → get j (setdefault k v d) ≢ none
  get-setdefault_keeps j k v d h = ground (arith, get-setdefault j k v d)

  pub get-put :
      (j k : K) (v : V) (d : Dict K V) → get j (put k v d) ≡ (if j == k then some v else get j d)
  unfolding get put
  get-put j k v [] = ground arith
  get-put j k v ((i, w) ∷ d) = ground (arith, get-put j k v d)

  -- Each value of the dict satisfies `P` with its key.
  abbrev pub AllEntries : (K → V → Type 0) → Dict K V → Type 0
  AllEntries P [] = Unit
  AllEntries P ((k, v) ∷ d) = P k v × AllEntries P d

  pub setdefault-AllEntries :
      (P : K → V → Type 0) (k : K) (v : V) (d : Dict K V)
      → P k v
      → AllEntries P d
      → AllEntries P (setdefault k v d)
  unfolding setdefault
  setdefault-AllEntries P k v [] p h = (p, tt)
  setdefault-AllEntries P k v ((j, w) ∷ d) p h = elim (Bool-cases (k == j)) [
    | inl same ↦ rw same h
    | inr other ↦ rw other (h.0, setdefault-AllEntries P k v d p h.1)
  ]

  pub AllEntries-mono :
      (P Q : K → V → Type 0)
      → ((k : K) (v : V) → P k v → Q k v)
      → (d : Dict K V) → AllEntries P d
      → AllEntries Q d
  AllEntries-mono P Q f [] h = tt
  AllEntries-mono P Q f ((k, v) ∷ d) h = (f k v h.0, AllEntries-mono P Q f d h.1)

  pub AllEntries-both :
      (P Q : K → V → Type 0) (d : Dict K V)
      → AllEntries P d
      → AllEntries Q d
      → AllEntries (λ k v. P k v × Q k v) d
  AllEntries-both P Q [] p q = tt
  AllEntries-both P Q ((k, v) ∷ d) p q = ((p.0, q.0), AllEntries-both P Q d p.1 q.1)

  pub All-values :
      (P : K → V → Type 0) (Q : V → Type 0)
      → ((k : K) (v : V) → P k v → Q v)
      → (d : Dict K V) → AllEntries P d
      → All Q (values d)
  unfolding values
  All-values P Q f [] h = tt
  All-values P Q f ((k, v) ∷ d) h = (f k v h.0, All-values P Q f d h.1)

  pub get-AllEntries :
      (P : K → V → Type 0) (k : K) (d : Dict K V) (v : V)
      → AllEntries P d
      → get k d ≡ some v
      → P k v
  unfolding get
  get-AllEntries P k [] v h q = cc
  get-AllEntries P k ((j, w) ∷ d) v h q = elim (Bool-cases (k == j)) [
    | inl same ↦
        let at_w : w ≡ v = ground arith in
        let at_k : k ≡ j = eq_of_== k j same in rw (at_k, ← at_w) h.0
    | inr other ↦ get-AllEntries P k d v h.1 (rw (← q) (ground arith))
  ]

  -- What a key finds stands among the values.
  pub get-Any-values :
      (P : V → Type 0) (k : K) (d : Dict K V) (v : V) → get k d ≡ some v → P v → Any P (values d)
  unfolding get values
  get-Any-values P k [] v q p = cc
  get-Any-values P k ((j, w) ∷ d) v q p = elim (Bool-cases (k == j)) [
    | inl same ↦ let at_w : w ≡ v = ground arith in inl (rw at_w p)
    | inr other ↦ inr (get-Any-values P k d v (rw (← q) (ground arith)) p)
  ]

module _ {ℓ} {A : Type ℓ} ⦃e : Eq A⦄ where
  contains-add_keys :
      (acc xs : List A) (a : A) → contains (add_keys acc xs) a ≡ (contains acc a || contains xs a)
  unfolding add_keys
  contains-add_keys acc [] a = ground arith
  contains-add_keys acc (x ∷ xs) a = ground (
    arith,
    contains-add_keys acc xs a,
    contains-add_keys (acc ++ x ∷ []) xs a,
    contains-append acc (x ∷ []) a,
  )

  -- Dropping the repeats keeps every entry and adds none.
  pub contains-fromkeys : (xs : List A) (a : A) → contains (fromkeys xs) a ≡ contains xs a
  unfolding fromkeys
  contains-fromkeys xs a = contains-add_keys [] xs a

  Distinct-append_one :
      (xs : List A) (x : A) → Distinct xs → contains xs x ≡ false → Distinct (xs ++ x ∷ [])
  Distinct-append_one [] x h n = (refl, tt)
  Distinct-append_one (y ∷ xs) x h n =
      (ground (arith, contains-append xs (x ∷ []) y), Distinct-append_one xs x h.1 (ground arith))

  add_keys-Distinct : (acc xs : List A) → Distinct acc → Distinct (add_keys acc xs)
  unfolding add_keys
  add_keys-Distinct acc [] h = h
  add_keys-Distinct acc (x ∷ xs) h = elim (Bool-cases (contains acc x)) [
    | inl old ↦ rw old (add_keys-Distinct acc xs h)
    | inr new ↦ rw new (add_keys-Distinct (acc ++ x ∷ []) xs (Distinct-append_one acc x h new))
  ]

  pub fromkeys-Distinct : (xs : List A) → Distinct (fromkeys xs)
  unfolding fromkeys
  fromkeys-Distinct xs = add_keys-Distinct [] xs tt

module _ {ℓ κ} {K : Type ℓ} {V : Type κ} ⦃e : Eq K⦄ where
  -- No key is listed twice.
  abbrev pub DistinctKeys : Dict K V → Type κ
  DistinctKeys [] = Unit
  DistinctKeys ((k, v) ∷ d) = (get k d ≡ none) × DistinctKeys d

  pub setdefault-DistinctKeys :
      (k : K) (v : V) (d : Dict K V) → DistinctKeys d → DistinctKeys (setdefault k v d)
  unfolding setdefault get
  setdefault-DistinctKeys k v [] h = (refl, tt)
  setdefault-DistinctKeys k v ((j, w) ∷ d) h =
      ground (arith, setdefault-DistinctKeys k v d h.1, get-setdefault j k v d)

-- Where each value is filed under its own key `f v`, a key is one of theirs exactly when the dict has
-- it, and the keys of the values are distinct.
module _ {K V : Type 0} ⦃e : Eq K⦄ (f : V → K) where
  pub contains-values :
      (k : K) (d : Dict K V)
      → AllEntries (λ j v. j ≡ f v) d
      → contains (map f (values d)) k ≡ not (is_none (get k d))
  unfolding values get
  contains-values k [] h = refl
  contains-values k ((j, v) ∷ d) h = ground (arith, contains-values k d h.1, h.0)

  pub values-Distinct :
      (d : Dict K V) → AllEntries (λ j v. j ≡ f v) d → DistinctKeys d → Distinct (map f (values d))
  unfolding values
  values-Distinct [] h u = tt
  values-Distinct ((j, v) ∷ d) h u =
      (ground (arith, contains-values (f v) d h.1, h.0, u.0), values-Distinct d h.1 u.1)

  -- A key of the dict is the key of a value.
  pub Any-values :
      (k : K) (d : Dict K V)
      → AllEntries (λ j v. j ≡ f v) d
      → get k d ≢ none
      → Any (λ v. f v ≡ k) (values d)
  unfolding values get
  Any-values k [] h n = absurd (n refl)
  Any-values k ((j, v) ∷ d) h n = elim (Bool-cases (k == j)) [
    | inl same ↦ inl (ground (arith, h.0))
    | inr other ↦ inr (Any-values k d h.1 (rw other at n))
  ]

module _ {ℓ κ} {K : Type ℓ} {V : Type κ} ⦃e : Eq K⦄ where
  found_in_place :
      (j k : K) (w v : V) (d : Dict K V)
      → get j d ≡ none
      → get k d ≡ some v
      → get k ((j, w) ∷ d) ≡ some v
  unfolding get
  found_in_place j k w v d n h = ground arith

-- Each entry of a dict with distinct keys is what its key finds.
pub get-entries :
    {K V : Type 0} ⦃e : Eq K⦄ (d : Dict K V)
    → DistinctKeys d
    → AllEntries (λ k v. get k d ≡ some v) d
unfolding get
get-entries [] u = tt
get-entries ((j, w) ∷ d) u = (
  ground arith,
  AllEntries-mono (λ k v. get k d ≡ some v) _ (λ k v h. found_in_place j k w v d u.0 h) d
      (get-entries d u.1),
)
