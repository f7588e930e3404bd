-- ===== src/Base/Outcome.antt =====
-- Rust's `Result`, with the error first.
use mathlib.Core.Path.{◌≡◌, refl, ap}
use mathlib.Core.Bool.{Bool, true, false}
use native.Mathlib.Omega.{arith}
use tensorgrid.Base.Tests.{if◌then◌else◌}
use mathlib.Core.Logic.{◌⊎◌, inl, inr}
use mathlib.Core.Option.{Option, none, some}

pub data Result {ℓ} (E A : Type ℓ) : Type ℓ where
  ok : A → Result E A
  err : E → Result E A

infixl 5 ◌>>=◌
abbrev pub ◌>>=◌ {ℓ} : {E A B : Type ℓ} → Result E A → (A → Result E B) → Result E B
ok a >>= f = f a
err e >>= f = err e

-- The state after a call that changes nothing when it fails.
abbrev pub after {ℓ} : {E A : Type ℓ} → A → Result E A → A
after a (ok b) = b
after a (err e) = a

-- `and_then`
abbrev pub and_then {ℓ κ} : {A : Type ℓ} {B : Type κ} → (A → Option B) → Option A → Option B
and_then f none = none
and_then f (some a) = f a

pub ok-injective {ℓ} : {E A : Type ℓ} (a b : A) → Path (Result E A) (ok a) (ok b) → a ≡ b
ok-injective a b e = ap (λ r. elim r [ ok x ↦ x | err x ↦ a ]) e

-- A guarded success passed its guard.
pub guarded-ok {ℓ} :
    {E A : Type ℓ} (b : Bool) (e : E) (v a : A)
    → Path (Result E A) (if b then ok v else err e) (ok a)
    → (b ≡ true) × (v ≡ a)
guarded-ok true e v a h = (refl, ok-injective v a h)
guarded-ok false e v a h = absurd (ground arith)

pub guarded-runs {ℓ} :
    {E A : Type ℓ} (b : Bool) (e : E) (v : A)
    → b ≡ true
    → Path (Result E A) (if b then ok v else err e) (ok v)
guarded-runs true e v h = refl
guarded-runs false e v h = absurd (ground arith)

-- A success of a chain comes from a success of its first part.
pub bind-ok {ℓ} :
    {E A B : Type ℓ} (r : Result E A) (f : A → Result E B) (b : B)
    → Path (Result E B) (r >>= f) (ok b)
    → (a : A) × (Path (Result E A) r (ok a)) × (Path (Result E B) (f a) (ok b))
bind-ok (ok a) f b e = (a, refl, e)
bind-ok (err x) f b e = absurd (ground arith)

pub Result-cases {ℓ} :
    {E A : Type ℓ} (r : Result E A)
    → ((e : E) × Path (Result E A) r (err e)) ⊎ ((a : A) × Path (Result E A) r (ok a))
Result-cases (ok a) = inr (a, refl)
Result-cases (err e) = inl (e, refl)
