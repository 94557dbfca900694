-- ===== src/Review/Values.antt =====
-- Reading the evidence of a task: `_task_evidence`, `_source_evidence_key`, `_required_string`,
-- `_required_string_list`, `_required_datetime` and `_optional_string`; and the numbers of a request:
-- `_task_quantity`, `_positive` and `_has_manual_basis_value`.
use portfolio_tracker_public.Prelude.{
  ℕ, ◌+◌, ◌*◌, ◌/◌, ◌%◌, ◌^◌, String, ◌<>◌, List, [], ◌∷◌, map, Option, none, some, Bool, true,
  false, not, ◌||◌, ◌&&◌, string_eq, if◌then◌else◌, ltb, eqb, get_or, is_none, any,
}
use portfolio_tracker_public.Prelude.Text.{strip, is_truthy}
use portfolio_tracker_public.Prelude.Int.{ℤ, pos, abs, pos_part, ltb_ℤ, leb_ℤ, eqb_ℤ}
use portfolio_tracker_public.Prelude.Dict.{Dict, get, setdefault}
use portfolio_tracker_public.Prelude.Decimal.{Decimal}
use portfolio_tracker_public.Reconcile.Resolve.{TaskRow}
use portfolio_tracker_public.Review.Types.{
  Value, null, text, texts, moment, mapping, scalar, TaskColumns, ManualCostBasisDecision, Outcome,
  done, raised, invalid, value_error, raise_if, ◌>>◌,
}

-- `evidence.get(key)`
abbrev pub value_of : Dict String Value → String → Value
value_of evidence key = get_or (get key evidence) null

-- `str(value)`
abbrev pub str : Value → String
str null = "None"
str (text s) = s
str (texts items shown) = shown
str (moment at shown) = shown
str (mapping truth shown) = shown
str (scalar truth shown) = shown

abbrev pub is_true : Value → Bool
is_true null = false
is_true (text s) = is_truthy s
is_true (texts [] shown) = false
is_true (texts (x ∷ xs) shown) = true
is_true (moment at shown) = true
is_true (mapping truth shown) = truth
is_true (scalar truth shown) = truth

abbrev pub optional_string : Value → Option String
optional_string null = none
optional_string (text s) = some s
optional_string (texts items shown) = some shown
optional_string (moment at shown) = some shown
optional_string (mapping truth shown) = some shown
optional_string (scalar truth shown) = some shown

-- `value if isinstance(value, dict) else None`
abbrev pub mapping_or_none : Value → Option Value
mapping_or_none null = none
mapping_or_none (text s) = none
mapping_or_none (texts items shown) = none
mapping_or_none (moment at shown) = none
mapping_or_none (mapping truth shown) = some (mapping truth shown)
mapping_or_none (scalar truth shown) = none

-- `str(value or default)`
abbrev pub str_or : Value → String → String
str_or v d = if is_true v then str v else d

unfoldable pub task_evidence : TaskRow → TaskColumns → Dict String Value
task_evidence task c =
    setdefault "review_task_id" (text task.task_id) (setdefault "source" (text c.source) c.evidence)

unfoldable pub source_evidence_key : TaskColumns → String
source_evidence_key c = str_or (value_of c.evidence "source_evidence_key") c.task_key

unfoldable pub task_quantity : TaskColumns → Decimal
task_quantity c = abs (get_or c.quantity (pos 0))

abbrev pub positive : Option Decimal → Option Decimal
positive none = none
positive (some a) = some (abs a)

unfoldable pub required_string : Dict String Value → String → Outcome String
required_string evidence key = elim (value_of evidence key) [
  | text s ↦
      if is_truthy (strip s)
      then done s
      else raised (invalid ("import approval evidence missing " <> key))
  | _ ↦ raised (invalid ("import approval evidence missing " <> key))
]

unfoldable pub required_string_list : Dict String Value → String → Outcome (List String)
required_string_list evidence key = elim (value_of evidence key) [
  | texts [] shown ↦ raised (invalid ("import approval evidence missing " <> key))
  | texts (x ∷ xs) shown ↦
      let strings = map strip (x ∷ xs) in
      if any (λ s. not (is_truthy s)) strings
      then raised (invalid ("import approval evidence has empty " <> key))
      else done strings
  | _ ↦ raised (invalid ("import approval evidence missing " <> key))
]

abbrev or_value_error : Option ℤ → Outcome ℤ
or_value_error none = raised value_error
or_value_error (some at) = done at

unfoldable pub required_datetime : (String → Option ℤ) → Dict String Value → String → Outcome ℤ
required_datetime from_iso evidence key = elim (value_of evidence key) [
  | moment at shown ↦ done at
  | text s ↦
      if is_truthy (strip s)
      then or_value_error (from_iso s)
      else raised (invalid ("import approval evidence missing " <> key))
  | _ ↦ raised (invalid ("import approval evidence missing " <> key))
]

-- The quotient, rounded to the nearest and in the middle to the even.
unfoldable pub round_half_even : ℕ → ℕ → ℕ
round_half_even n d =
    let q = n / d in
    let r = n % d in
    if ltb (2 * r) d then q else if ltb d (2 * r) then q + 1 else if eqb (q % 2) 0 then q else q + 1

-- `(quantity * unit_cost).quantize(Decimal("0.000001"))` of numbers that are not negative: the product
-- is in units of 10^-32 and the result in units of 10^-16.
unfoldable pub expected_total : Decimal → Decimal → Decimal
expected_total quantity unit_cost =
    pos (round_half_even (pos_part quantity * pos_part unit_cost) (10 ^ 26) * 10 ^ 10)

abbrev is_below_zero : Option Decimal → Bool
is_below_zero none = false
is_below_zero (some a) = ltb_ℤ a (pos 0)

abbrev is_not_above_zero : Option Decimal → Bool
is_not_above_zero none = false
is_not_above_zero (some a) = leb_ℤ a (pos 0)

-- The three numbers are there and the total is not the product.
abbrev pub is_mismatch : Option Decimal → Option Decimal → Option Decimal → Bool
is_mismatch none quantity unit_cost = false
is_mismatch (some total) none unit_cost = false
is_mismatch (some total) (some quantity) none = false
is_mismatch (some total) (some quantity) (some unit_cost) =
    not (eqb_ℤ total (expected_total quantity unit_cost))

unfoldable pub has_manual_basis_value : ManualCostBasisDecision → Outcome Bool
has_manual_basis_value d = do
  raise_if (is_below_zero d.cost_basis_usd)
      (invalid "manual_cost_basis cost_basis_usd must be >= 0")
  raise_if (is_not_above_zero d.quantity) (invalid "manual_cost_basis quantity must be > 0")
  raise_if (is_below_zero d.unit_cost_usd) (invalid "manual_cost_basis unit_cost_usd must be >= 0")
  raise_if (is_mismatch d.cost_basis_usd d.quantity d.unit_cost_usd)
      (invalid "manual_cost_basis total must match quantity * unit_cost_usd")
  done (
      not (is_none d.cost_basis_usd) || (not (is_none d.quantity) && not (is_none d.unit_cost_usd)))
