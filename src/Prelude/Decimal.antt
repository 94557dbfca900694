-- ===== src/Prelude/Decimal.antt =====
-- Python's `Decimal` as an integer number of units of 10^-16: sums, differences and comparisons are
-- exact, as they are in the source up to 28 digits. A product with a literal of at most four places
-- is kept exact in units of 10^-20. A quotient is kept as its two terms, unrounded.
use portfolio_tracker_public.Prelude.Int.{ℤ, pos, ◌*ℤ◌}
use Prim.Native.Nat.{ℕ, ◌*◌, ◌^◌}

abbrev pub Decimal : Type 0
Decimal = ℤ

-- The number of units in 1.
abbrev pub units : ℕ
units = 10 ^ 16

-- `Decimal("n")` of a whole number.
abbrev pub whole : ℕ → Decimal
whole n = pos (n * units)

-- A decimal in the finer unit, and its product with n/10000 there.
abbrev pub widen : Decimal → ℤ
widen a = a *ℤ pos 10_000

abbrev pub basis_points : Decimal → ℕ → ℤ
basis_points a n = a *ℤ pos n

-- `a / b`
pub record Ratio : Type 0 where
  pub num : ℤ
  pub den : ℤ
