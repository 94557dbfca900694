-- ===== src/Distribution/Totals.antt =====
-- The sums of the distribution.
use portfolio_tracker_public.Prelude.{
  ◌≡◌, refl, sym, ◌∙◌, ap, List, [], ◌∷◌, map, Option, none, some, Bool, true, false, not, ◌==◌,
  inl, inr, Bool-cases, Option-cases, if◌then◌else◌, keep, arith,
}
use portfolio_tracker_public.Prelude.Int.{ℤ, pos, ◌+ℤ◌, eqb_ℤ, int_laws, +ℤ_assoc, +ℤ-zero, zero-+ℤ}
use portfolio_tracker_public.Prelude.Decimal.{Decimal}
use portfolio_tracker_public.Confidence.{trusted, confidence_eq}
use portfolio_tracker_public.Distribution.Types.{
  AssetType, crypto, stocks_etfs, commodities, cash, other, asset_type_eq, bucket_order,
  CashReserveKind, stablecoin, broker_cash, other_tracked_cash, DistributionHolding,
  DistributionCurrentValue, DistributionBucket,
}
use portfolio_tracker_public.Distribution.Classes.{
  distribution_asset_type, cash_reserve_kind_of, confidence_state_of,
}
use portfolio_tracker_public.Distribution.Tally.{
  Tally, empty_tally, add_value, add_impact, add_reserve, add_valued, add_holding, add_holdings,
  holding_impact,
}
use portfolio_tracker_public.Distribution.Summary.{
  sum_values, calculate_asset_type_distribution, bucket_of,
}

-- The known values of the holdings of some types.
abbrev pub value_in : (AssetType → Bool) → DistributionHolding → Decimal
value_in p h = elim h.current_value_usd [
  | none ↦ pos 0
  | some value ↦ if p (distribution_asset_type h) then value else pos 0
]

abbrev pub known_total : (AssetType → Bool) → List DistributionHolding → Decimal
known_total p [] = pos 0
known_total p (h ∷ hs) = value_in p h +ℤ known_total p hs

abbrev reserve_of : Tally → Decimal
reserve_of t = t.stablecoin_usd +ℤ t.broker_cash_usd +ℤ t.other_tracked_cash_usd

add_reserve-reserve_of :
    (kind : CashReserveKind) (value : Decimal) (t : Tally)
    → reserve_of (add_reserve kind value t) ≡ reserve_of t +ℤ value
unfolding add_reserve
add_reserve-reserve_of stablecoin value t = omega int_laws
add_reserve-reserve_of broker_cash value t = omega int_laws
add_reserve-reserve_of other_tracked_cash value t = omega int_laws

add_reserve-bucket_values :
    (kind : CashReserveKind) (value : Decimal) (t : Tally)
    → (add_reserve kind value t).bucket_values ≡ t.bucket_values
unfolding add_reserve
add_reserve-bucket_values stablecoin value t = refl
add_reserve-bucket_values broker_cash value t = refl
add_reserve-bucket_values other_tracked_cash value t = refl

abbrev values_after : AssetType → Option Decimal → (AssetType → Decimal) → AssetType → Decimal
values_after key none values = values
values_after key (some amount) values = add_value key amount values

abbrev amount_in : (AssetType → Bool) → AssetType → Option Decimal → Decimal
amount_in p key none = pos 0
amount_in p key (some amount) = if p key then amount else pos 0

-- The reserve grows by what counts as cash, and no bucket changes.
add_reserve-sums :
    (is_cash : Bool) (kind : CashReserveKind) (value : Decimal) (t : Tally)
    → ((if is_cash then add_reserve kind value t else t).bucket_values ≡ t.bucket_values)
      × (reserve_of (if is_cash then add_reserve kind value t else t)
          ≡ reserve_of t +ℤ (if is_cash then value else pos 0))
add_reserve-sums true kind value t =
    (add_reserve-bucket_values kind value t, add_reserve-reserve_of kind value t)
add_reserve-sums false kind value t = (refl, sym (+ℤ-zero (reserve_of t)))

add_valued-sums :
    (h : DistributionHolding) (key : AssetType) (o : Option Decimal) (t : Tally)
    → ((add_valued h key o t).bucket_values ≡ values_after key o t.bucket_values)
      × (reserve_of (add_valued h key o t) ≡ reserve_of t +ℤ amount_in (λ a. a == cash) key o)
unfolding add_valued add_impact
add_valued-sums h key none t = (refl, sym (+ℤ-zero (reserve_of t)))
add_valued-sums h key (some value) t =
    let kind = cash_reserve_kind_of h in
    let counted = record t { bucket_values = add_value key value t.bucket_values } in
    elim (Bool-cases (confidence_state_of h.confidence_state == trusted)) [
      | inl e ↦ rw e (add_reserve-sums (key == cash) kind value counted)
      | inr e ↦
          rw e
            (add_reserve-sums (key == cash) kind value (add_impact key (holding_impact h) counted))
    ]

sum_values-add_value :
    (key : AssetType) (amount : Decimal) (values : AssetType → Decimal)
    → sum_values (add_value key amount values) bucket_order
      ≡ sum_values values bucket_order +ℤ amount
unfolding asset_type_eq
sum_values-add_value crypto amount values = omega int_laws
sum_values-add_value stocks_etfs amount values = omega int_laws
sum_values-add_value commodities amount values = omega int_laws
sum_values-add_value cash amount values = omega int_laws
sum_values-add_value other amount values = omega int_laws

sum_values-values_after :
    (key : AssetType) (o : Option Decimal) (values : AssetType → Decimal)
    → sum_values (values_after key o values) bucket_order
      ≡ sum_values values bucket_order +ℤ amount_in (λ a. true) key o
sum_values-values_after key none values = sym (+ℤ-zero (sum_values values bucket_order))
sum_values-values_after key (some amount) values = sum_values-add_value key amount values

value_in-amount_in :
    (p : AssetType → Bool) (h : DistributionHolding)
    → value_in p h ≡ amount_in p (distribution_asset_type h) h.current_value_usd
value_in-amount_in p h = elim (Option-cases h.current_value_usd) [
  | inl e ↦ rw e refl
  | inr (v, e) ↦ rw e refl
]

add_holdings-total :
    (t : Tally) (hs : List DistributionHolding)
    → (sum_values (add_holdings t hs).bucket_values bucket_order
        ≡ sum_values t.bucket_values bucket_order +ℤ known_total (λ a. true) hs)
      × (reserve_of (add_holdings t hs) ≡ reserve_of t +ℤ known_total (λ a. a == cash) hs)
unfolding add_holdings add_holding
add_holdings-total t [] =
    (sym (+ℤ-zero (sum_values t.bucket_values bucket_order)), sym (+ℤ-zero (reserve_of t)))
add_holdings-total t (h ∷ hs) =
    let key = distribution_asset_type h in
    let o = h.current_value_usd in
    let next = add_holding t h in
    let (values, reserve) = add_valued-sums h key o t in
    let (total, cash_total) = add_holdings-total next hs in
    (
      total
          ∙ ap (λ s. s +ℤ known_total (λ a. true) hs)
              (ap (λ f. sum_values f bucket_order) values
                ∙ sum_values-values_after key o t.bucket_values
                ∙ ap (λ x. sum_values t.bucket_values bucket_order +ℤ x)
                    (sym (value_in-amount_in (λ a. true) h)))
          ∙ +ℤ_assoc _ _ _,
      cash_total
          ∙ ap (λ s. s +ℤ known_total (λ a. a == cash) hs)
              (reserve ∙ ap (λ x. reserve_of t +ℤ x) (sym (value_in-amount_in (λ a. a == cash) h)))
          ∙ +ℤ_assoc _ _ _,
    )

abbrev pub shown_total : List DistributionBucket → Decimal
shown_total [] = pos 0
shown_total (b ∷ bs) = b.value_usd +ℤ shown_total bs

eqb_ℤ-eq : (a b : ℤ) → eqb_ℤ a b ≡ true → a ≡ b
eqb_ℤ-eq a b h = ground arith

-- The buckets that are left out are worth nothing.
shown_total-buckets :
    (bucket : AssetType → DistributionBucket) (values : AssetType → Decimal)
    → ((a : AssetType) → (bucket a).value_usd ≡ values a)
    → (ts : List AssetType)
    → shown_total (map bucket (keep (λ a. not (eqb_ℤ (values a) (pos 0))) ts))
      ≡ sum_values values ts
shown_total-buckets bucket values h [] = refl
shown_total-buckets bucket values h (t ∷ ts) =
    let rest = shown_total-buckets bucket values h ts in
    elim (Bool-cases (eqb_ℤ (values t) (pos 0))) [
      | inl e ↦
          let nothing = eqb_ℤ-eq (values t) (pos 0) e in
          rw e (rest ∙ sym (zero-+ℤ _) ∙ ap (λ x. x +ℤ sum_values values ts) (sym nothing))
      | inr e ↦
          let left = keep (λ a. not (eqb_ℤ (values a) (pos 0))) ts in
          rw e (ap (λ x. x +ℤ shown_total (map bucket left)) (h t) ∙ ap (λ x. values t +ℤ x) rest)
    ]

-- The total is the sum of the known values of the holdings, the reserve of cash that of the holdings
-- that count as cash, and the buckets that are shown add up to the total.
pub calculate_asset_type_distribution-totals :
    (v : DistributionCurrentValue) (hs : List DistributionHolding) (override : Option Decimal)
    → ((calculate_asset_type_distribution v hs override).total_allocated_usd
        ≡ known_total (λ a. true) hs)
      × ((calculate_asset_type_distribution v hs override).cash_reserve.total_usd
          ≡ known_total (λ a. a == cash) hs)
      × (shown_total (calculate_asset_type_distribution v hs override).asset_type_buckets
          ≡ (calculate_asset_type_distribution v hs override).total_allocated_usd)
unfolding calculate_asset_type_distribution bucket_of ◌+ℤ◌
calculate_asset_type_distribution-totals v hs override =
    let (total, cash_total) = add_holdings-total empty_tally hs in
    (
      total ∙ zero-+ℤ _,
      cash_total ∙ zero-+ℤ _,
      shown_total-buckets _ (add_holdings empty_tally hs).bucket_values (λ a. refl) bucket_order,
    )
