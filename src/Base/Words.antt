-- ===== src/Base/Words.antt =====
-- u32 and u64 as native numbers below 2 ^ 32 and 2 ^ 64: a release build wraps. A `usize` is 64 bits.
use Prim.Native.Nat.{ℕ, ◌+◌, ◌-◌, ◌%◌, ◌^◌, ◌<◌}
use mathlib.Core.Path.{◌≡◌}
use mathlib.Core.List.{List, [], ◌∷◌}
use native.Mathlib.Omega.{arith}

abbrev pub u8 : ℕ → ℕ
u8 n = n % 2 ^ 8

abbrev pub u32 : ℕ → ℕ
u32 n = n % 2 ^ 32

abbrev pub u64 : ℕ → ℕ
u64 n = n % 2 ^ 64

-- `a - b` on u64.
abbrev pub u64_sub : ℕ → ℕ → ℕ
u64_sub a b = (a + 2 ^ 64 - b) % 2 ^ 64

-- The sum that is meant, and what `iter().sum::<u64>()` and `sum::<u32>()` compute.
unfoldable pub sum : List ℕ → ℕ
sum [] = 0
sum (x ∷ xs) = x + sum xs

unfoldable pub sum_u64 : ℕ → List ℕ → ℕ
sum_u64 acc [] = acc
sum_u64 acc (x ∷ xs) = sum_u64 (u64 (acc + x)) xs

unfoldable pub sum_u32 : ℕ → List ℕ → ℕ
sum_u32 acc [] = acc
sum_u32 acc (x ∷ xs) = sum_u32 (u32 (acc + x)) xs

-- Where the true sum fits, the machine's sum is it.
pub sum_u64-eq-sum : (acc : ℕ) (xs : List ℕ) → acc + sum xs < 2 ^ 64 → sum_u64 acc xs ≡ acc + sum xs
unfolding sum sum_u64
sum_u64-eq-sum acc [] h = omega arith
sum_u64-eq-sum acc (x ∷ xs) h = grind (arith, sum_u64-eq-sum (u64 (acc + x)) xs)

pub sum_u32-eq-sum : (acc : ℕ) (xs : List ℕ) → acc + sum xs < 2 ^ 32 → sum_u32 acc xs ≡ acc + sum xs
unfolding sum sum_u32
sum_u32-eq-sum acc [] h = omega arith
sum_u32-eq-sum acc (x ∷ xs) h = grind (arith, sum_u32-eq-sum (u32 (acc + x)) xs)

-- The machine's sum is the true one modulo 2^64.
pub sum_u64_wraps : (acc : ℕ) (xs : List ℕ) → acc < 2 ^ 64 → sum_u64 acc xs ≡ u64 (acc + sum xs)
unfolding sum sum_u64
sum_u64_wraps acc [] small = omega (arith, small)
sum_u64_wraps acc (x ∷ xs) small = omega (arith, sum_u64_wraps (u64 (acc + x)) xs (omega arith))
