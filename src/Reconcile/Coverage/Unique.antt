-- ===== src/Reconcile/Coverage/Unique.antt =====
-- The records of the result that belong to a movement, where no other movement has their key.
use text.Mathlib.TextLemmas.{append_cancel_left, append_inj}
use Prim.Native.String.{count}
use portfolio_tracker_public.Prelude.{
  ◌≡◌, refl, sym, ◌∙◌, ap, List, [], ◌∷◌, map, some, true, ==-refl, string_eq, contains, keep,
  arith, All, In, Any, inl, inr, All-In, In-All, ℕ, All-keep,
}
use portfolio_tracker_public.Prelude.Dict.{Distinct}
use portfolio_tracker_public.Prelude.Text.{join_key}
use portfolio_tracker_public.Reconcile.Types.{
  MovementEvidence, TransferLinkRecord, ExternalCashflowClassificationRecord,
}
use portfolio_tracker_public.Reconcile.Matching.{
  dedupe_movements, is_deposit, transfer_candidates, deterministic_candidate,
}
use portfolio_tracker_public.Reconcile.Records.{transfer_link, external_withdrawal}
use portfolio_tracker_public.Reconcile.Matched.{IsInternal, IsXtbWithdrawal, chosen}
use portfolio_tracker_public.Reconcile.Dedupe.{dedupe_movements_first}

-- No two of the movements make one link group key out of two pairs of evidence keys.
abbrev pub AreApart : List MovementEvidence → Type 0
AreApart ms =
    (v e w d : MovementEvidence)
    → In v ms
    → In e ms
    → In w ms
    → In d ms
    → (transfer_link v e).link_group_key ≡ (transfer_link w d).link_group_key
    → v.evidence_key ≡ w.evidence_key

-- Evidence keys of one length are apart.
pub same_length-AreApart :
    (n : ℕ) (ms : List MovementEvidence) → All (λ m. count m.evidence_key ≡ n) ms → AreApart ms
unfolding transfer_link join_key
same_length-AreApart n ms h v e w d iv ie iw id same =
    let lengths : count v.evidence_key ≡ count w.evidence_key =
      In-All (λ m. count m.evidence_key ≡ n) ms h iv
      ∙ sym (In-All (λ m. count m.evidence_key ≡ n) ms h iw) in
    (append_inj (append_cancel_left ":" _ _ (append_cancel_left "transfer" _ _ same)) lengths).0

key_stands :
    (m : MovementEvidence) (ms : List MovementEvidence)
    → In m ms
    → contains (map (λ (x : MovementEvidence). x.evidence_key) ms) m.evidence_key ≡ true
key_stands m [] i = elim i [ ]
key_stands m (x ∷ ms) (inl e) = rw e (rw (==-refl m.evidence_key) refl)
key_stands m (x ∷ ms) (inr i) = let rest = key_stands m ms i in ground arith

-- Two movements of one key are one, where no key stands twice.
one_of_key :
    (ms : List MovementEvidence) (a b : MovementEvidence)
    → Distinct (map (λ (x : MovementEvidence). x.evidence_key) ms)
    → In a ms
    → In b ms
    → a.evidence_key ≡ b.evidence_key
    → a ≡ b
one_of_key [] a b h i j e = elim i [ ]
one_of_key (x ∷ ms) a b h (inl p) (inl q) e = sym p ∙ q
one_of_key (x ∷ ms) a b h (inl p) (inr j) e =
    let stands = key_stands b ms j in
    let same : x.evidence_key ≡ b.evidence_key =
      ap (λ (m : MovementEvidence). m.evidence_key) p ∙ e in
    absurd (
      cc
        (sym h.0 ∙ ap (contains (map (λ (m : MovementEvidence). m.evidence_key) ms)) same ∙ stands))
one_of_key (x ∷ ms) a b h (inr i) (inl q) e =
    let stands = key_stands a ms i in
    let same : x.evidence_key ≡ a.evidence_key =
      ap (λ (m : MovementEvidence). m.evidence_key) q ∙ sym e in
    absurd (
      cc
        (sym h.0 ∙ ap (contains (map (λ (m : MovementEvidence). m.evidence_key) ms)) same ∙ stands))
one_of_key (x ∷ ms) a b h (inr i) (inr j) e = one_of_key ms a b h.1 i j e

withdrawal_key_inj :
    (v w : MovementEvidence)
    → (external_withdrawal v).classification_key ≡ (external_withdrawal w).classification_key
    → v.evidence_key ≡ w.evidence_key
unfolding external_withdrawal join_key
withdrawal_key_inj v w h = append_cancel_left ":" _ _ (
    append_cancel_left "external_withdrawal" _ _
      (append_cancel_left ":" _ _ (append_cancel_left "cashflow" _ _ h)))

link_key_inj :
    (v e w d : MovementEvidence)
    → v.evidence_key ≡ w.evidence_key
    → (transfer_link v e).link_group_key ≡ (transfer_link w d).link_group_key
    → e.evidence_key ≡ d.evidence_key
unfolding transfer_link join_key
link_key_inj v e w d same h = append_cancel_left ":" _ _ (
    append_cancel_left w.evidence_key _ _
      (append_cancel_left ":" _ _ (append_cancel_left "transfer" _ _ (rw same at h))))

-- What all elements have and one that is sought has, the sought one has both.
In-of_Any :
    {A : Type 0} (P Q : A → Type 0) (a : A)
    → ((x : A) → P x → Q x → x ≡ a)
    → (xs : List A) → All P xs
    → Any Q xs
    → In a xs
In-of_Any P Q a h [] p q = elim q [ ]
In-of_Any P Q a h (x ∷ xs) p (inl q) = inl (h x p.0 q)
In-of_Any P Q a h (x ∷ xs) p (inr q) = inr (In-of_Any P Q a h xs p.1 q)

module _ (ms : List MovementEvidence) (w : MovementEvidence)
    (stands : In w (dedupe_movements ms)) where
  one :
      (v x : MovementEvidence)
      → In v (dedupe_movements ms)
      → In x (dedupe_movements ms)
      → v.evidence_key ≡ x.evidence_key
      → v ≡ x
  one v x = one_of_key (dedupe_movements ms) v x (dedupe_movements_first ms).0

  pub withdrawal_classified :
      (cs : List ExternalCashflowClassificationRecord)
      → All (IsXtbWithdrawal (dedupe_movements ms)) cs
      → Any (λ c. c.classification_key ≡ (external_withdrawal w).classification_key) cs
      → In (external_withdrawal w) cs
  withdrawal_classified = In-of_Any _ _ (external_withdrawal w) (λ c p q.
      let (v, iv, out, xtb, made) = p in
      let same =
        withdrawal_key_inj v w (
          ap (λ (x : ExternalCashflowClassificationRecord). x.classification_key) (sym made) ∙ q) in
      made ∙ ap external_withdrawal (one v w iv stands same))

  pub pair_linked :
      (d : MovementEvidence) (links : List TransferLinkRecord)
      → AreApart (dedupe_movements ms)
      → deterministic_candidate w (transfer_candidates w (keep is_deposit (dedupe_movements ms)))
        ≡ some d
      → All (IsInternal (dedupe_movements ms)) links
      → Any (λ link. link.link_group_key ≡ (transfer_link w d).link_group_key) links
      → In (transfer_link w d) links
  pair_linked d links apart found all =
      let unique = dedupe_movements ms in
      let members = All-In (λ x. In x unique) unique (λ x i. i) in
      let (i, c) =
        chosen (λ x. In x unique × (is_deposit x ≡ true)) w d (keep is_deposit unique)
          (All-keep (λ x. In x unique) is_deposit unique members) found in
      In-of_Any (IsInternal unique) _ (transfer_link w d)
        (λ link p q.
          let (v, e, m, made) = p in
          let keys = ap (λ (x : TransferLinkRecord). x.link_group_key) (sym made) ∙ q in
          let from = apart v e w d m.from_evidence m.to_evidence stands i.0 keys in
          let to = link_key_inj v e w d from keys in
          made
          ∙ ap (λ x. transfer_link x e) (one v w m.from_evidence stands from)
          ∙ ap (transfer_link w) (one e d m.to_evidence i.0 to))
        links all
