-- ===== src/Float.antt =====
-- f32 (and f64) as a type `F` with the operations that the program calls: no theorem looks inside a
-- float, and one that needs a fact about IEEE 754 arithmetic takes it as a field of `IsExact`.
pub mod Ratio
use Prim.Native.Nat.{Ordering}
use tensorgrid.Base.{
  ℕ, ◌+◌, ◌-◌, ◌/◌, ◌^◌, ◌≤◌, ◌<◌, ◌≡◌, Bool, true, false, Option, none, some, ltb,
}

pub record Float (F : Type 0) : Type 0 where
  pub of_ℕ : ℕ → F  -- `n as f32`
  pub lit : ℕ → ℕ → F  -- the literal m / 10 ^ k
  pub add : F → F → F
  pub sub : F → F → F
  pub mul : F → F → F
  pub div : F → F → F
  pub min : F → F → F
  pub ceil : F → F
  pub to_u32 : F → ℕ  -- `x as u32`, which saturates
  pub to_u64 : F → ℕ
  pub partial_cmp : F → F → Option Ordering
  pub as_secs : ℕ → F  -- `Duration::as_secs_f32` of nanoseconds
  pub infinity : F
  pub is_finite : F → Bool

-- a > b, which is false beside a NaN.
abbrev pub gt : {F : Type 0} → Float F → F → F → Bool
gt fl a b = elim (fl.partial_cmp a b) [
  | none ↦ false
  | some o ↦ elim o [ Ordering.gt ↦ true | _ ↦ false ]
]

abbrev pub exact_limit : ℕ
exact_limit = 2 ^ 24

-- Integers up to 2 ^ 24 are floats: sums, differences and comparisons of such are exact, and so is
-- a quotient of two of them, rounded up.
pub record IsExact {F : Type 0} (fl : Float F) : Type 0 where
  pub add_exact : (a b : ℕ) → a + b ≤ exact_limit → fl.add (fl.of_ℕ a) (fl.of_ℕ b) ≡ fl.of_ℕ (a + b)
  pub sub_exact :
      (a b : ℕ) → a ≤ exact_limit → b ≤ a → fl.sub (fl.of_ℕ a) (fl.of_ℕ b) ≡ fl.of_ℕ (a - b)
  pub gt_exact :
      (a b : ℕ) → a ≤ exact_limit → b ≤ exact_limit → gt fl (fl.of_ℕ a) (fl.of_ℕ b) ≡ ltb b a
  pub ceil_div_exact :
      (a b : ℕ)
      → a ≤ exact_limit
      → 0 < b
      → b ≤ exact_limit
      → fl.to_u32 (fl.ceil (fl.div (fl.of_ℕ a) (fl.of_ℕ b))) ≡ (a + b - 1) / b
