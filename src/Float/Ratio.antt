-- ===== src/Float/Ratio.antt =====
-- Fractions in place of floats: a value of `Float` at which what the theorems assume can hold.
use Prim.Native.Nat.{compare, Ordering}
use native.Mathlib.Nat.{mul-one, one-mul, div-one}
use tensorgrid.Base.{ℕ, ◌+◌, ◌-◌, ◌*◌, ◌/◌, ◌^◌, Option, some, arith, leb, ◌==◌, if◌then◌else◌, not}
use tensorgrid.Float.{Float, IsExact}

-- Numerator and denominator; nothing over zero is infinite.
abbrev pub Ratio : Type 0
Ratio = ℕ × ℕ

abbrev min_ratio : Ratio → Ratio → Ratio
min_ratio (a, b) (c, d) = if leb (a * d) (c * b) then (a, b) else (c, d)

abbrev cmp_ratio : Ratio → Ratio → Option Ordering
cmp_ratio (a, b) (c, d) = some (compare (a * d) (c * b))

abbrev pub ratio : Float Ratio
ratio = record {
  of_ℕ = λ n. (n, 1);
  lit = λ m k. (m, 10 ^ k);
  add = λ x y. (x.0 * y.1 + y.0 * x.1, x.1 * y.1);
  sub = λ x y. (x.0 * y.1 - y.0 * x.1, x.1 * y.1);
  mul = λ x y. (x.0 * y.0, x.1 * y.1);
  div = λ x y. (x.0 * y.1, x.1 * y.0);
  min = min_ratio;
  ceil = λ x. ((x.0 + x.1 - 1) / x.1, 1);
  to_u32 = λ x. x.0 / x.1;
  to_u64 = λ x. x.0 / x.1;
  partial_cmp = cmp_ratio;
  as_secs = λ n. (n, 10 ^ 9);
  infinity = (1, 0);
  is_finite = λ x. not (x.1 == 0);
}

pub ratio-IsExact : IsExact ratio
ratio-IsExact = record {
  add_exact = λ a b h. ground arith;
  sub_exact = λ a b h k. ground arith;
  gt_exact = λ a b h k. ground arith;
  ceil_div_exact = λ a b h k l. simp (mul-one, one-mul, div-one);
}
