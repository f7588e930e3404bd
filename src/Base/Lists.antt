-- ===== src/Base/Lists.antt =====
-- Lists measured by native numbers, predicates on lists, and Boolean membership.
use Prim.Native.Nat.{ℕ, zero, suc, ◌+◌, ◌≤◌}
use mathlib.Core.Path.{◌≡◌, refl, sym, ap, ◌∙◌}
use mathlib.Core.Logic.{ite, if_pos, if_neg}
use mathlib.Core.Bool.{Bool, true, false, ◌||◌, true≢false}
use mathlib.Core.List.{List, [], ◌∷◌, ◌++◌, map}
use mathlib.Core.Option.{Option, none, some}
use native.Mathlib.Omega.{arith}
use tensorgrid.Base.Tests.{Key, if◌then◌else◌}

module _ {ℓ} {A : Type ℓ} where
  abbrev pub length : List A → ℕ
  length [] = 0
  length (x ∷ xs) = suc (length xs)

module _ {ℓ} {A : Type ℓ} where
  abbrev pub take : ℕ → List A → List A
  take zero xs = []
  take (suc n) [] = []
  take (suc n) (x ∷ xs) = x ∷ take n xs

  -- `iter().filter(p)` and `retain(p)`.
  abbrev pub retain : (A → Bool) → List A → List A
  retain p [] = []
  retain p (x ∷ xs) = let rest = retain p xs in if p x then x ∷ rest else rest

  abbrev pub any : (A → Bool) → List A → Bool
  any p [] = false
  any p (x ∷ xs) = p x || any p xs

  abbrev pub All {κ} : (A → Type κ) → List A → Type κ
  All P [] = Unit
  All P (x ∷ xs) = P x × All P xs

  abbrev pub last? : List A → Option A
  last? [] = none
  last? (x ∷ []) = some x
  last? (x ∷ y ∷ ys) = last? (y ∷ ys)

  pub length-append : (xs ys : List A) → length (xs ++ ys) ≡ length xs + length ys
  length-append [] ys = omega arith
  length-append (x ∷ xs) ys = omega (arith, length-append xs ys)

  pub length-take-le : (n : ℕ) (xs : List A) → length (take n xs) ≤ n
  length-take-le zero xs = omega arith
  length-take-le (suc n) [] = omega arith
  length-take-le (suc n) (x ∷ xs) = omega (arith, length-take-le n xs)

  pub length-map {κ} : {B : Type κ} (f : A → B) (xs : List A) → length (map f xs) ≡ length xs
  length-map f [] = refl
  length-map f (x ∷ xs) = ap suc (length-map f xs)

  pub length-retain-le : (p : A → Bool) (xs : List A) → length (retain p xs) ≤ length xs
  length-retain-le p [] = omega arith
  length-retain-le p (x ∷ xs) = ground (arith, length-retain-le p xs)

  pub last?-append : (xs : List A) (y : A) (ys : List A) → last? (xs ++ y ∷ ys) ≡ last? (y ∷ ys)
  last?-append [] y ys = refl
  last?-append (x ∷ []) y ys = refl
  last?-append (x ∷ z ∷ zs) y ys = last?-append (z ∷ zs) y ys

  pub All-append {κ} : (P : A → Type κ) (xs ys : List A) → All P xs → All P ys → All P (xs ++ ys)
  All-append P [] ys hx hy = hy
  All-append P (x ∷ xs) ys hx hy = (hx.0, All-append P xs ys hx.1 hy)

module _ {ℓ} {A : Type ℓ} ⦃k : Key A⦄ where
  -- `xs.contains(&a)`
  unfoldable pub contains : A → List A → Bool
  contains a [] = false
  contains a (x ∷ xs) = ite (k.discrete x a) true (contains a xs)

  -- `xs.retain(|x| x != a)`
  unfoldable pub retain_ne : A → List A → List A
  retain_ne a [] = []
  retain_ne a (x ∷ xs) = ite (k.discrete x a) (retain_ne a xs) (x ∷ retain_ne a xs)

  pub contains-snoc :
      (a b : A) (xs : List A)
      → contains a (xs ++ b ∷ []) ≡ ite (k.discrete b a) true (contains a xs)
  unfolding contains
  contains-snoc a b [] = refl
  contains-snoc a b (x ∷ xs) = ground (arith, contains-snoc a b xs)

  pub contains-retain_ne :
      (a b : A) (xs : List A)
      → contains a (retain_ne b xs) ≡ ite (k.discrete b a) false (contains a xs)
  unfolding contains retain_ne
  contains-retain_ne a b [] = ground arith
  contains-retain_ne a b (x ∷ xs) = elim (k.discrete x b) [
    | yes gone ↦ rw (if_pos (k.discrete x b) gone) (ground (arith, contains-retain_ne a b xs))
    | no kept ↦ rw (if_neg (k.discrete x b) kept) (ground (arith, contains-retain_ne a b xs))
  ]

  pub retain_ne_absent : (a : A) (xs : List A) → contains a xs ≡ false → retain_ne a xs ≡ xs
  unfolding contains retain_ne
  retain_ne_absent a [] h = refl
  retain_ne_absent a (x ∷ xs) h = elim (k.discrete x a) [
    | yes e ↦ absurd (true≢false (sym (if_pos (k.discrete x a) e true (contains a xs)) ∙ h))
    | no e ↦
        let rest = sym (if_neg (k.discrete x a) e true (contains a xs)) ∙ h in
        if_neg (k.discrete x a) e (retain_ne a xs) (x ∷ retain_ne a xs)
        ∙ ap (◌∷◌ x) (retain_ne_absent a xs rest)
  ]

  pub retain_ne_twice : (a : A) (xs : List A) → retain_ne a (retain_ne a xs) ≡ retain_ne a xs
  retain_ne_twice a xs =
      retain_ne_absent a (retain_ne a xs)
        (contains-retain_ne a a xs ∙ if_pos (k.discrete a a) refl false (contains a xs))
