-- ===== src/Gguf/Yields.antt =====
-- What a reader of crates/model-format/src/lib.rs gives from bytes: a property of the value, how many
-- bytes it takes at least, and bytes left.
use tensorgrid.Base.{
  drop, from_le_bytes, Bytes, ℕ, zero, suc, ◌+◌, ◌^◌, ◌≡◌, ◌≤◌, ◌<◌, refl, sym, ap, subst, Bool,
  true, false, List, [], ◌∷◌, length, take, Result, ok, err, if◌then◌else◌, arith, All, Bool-cases,
  inl, inr, ltb,
}
use tensorgrid.Gguf.Readers.{
  GgufError, Host, IsByteOrder, Reader, ◌>>=◌, pure, fail, read_exact, is_utf8, from_utf8, reserve,
  repeat,
}

abbrev pub IsByte : ℕ → Type 0
IsByte b = b < 256

abbrev pub Outcome : {A : Type 0} → (A → Type 0) → ℕ → Bytes → Result GgufError (A × Bytes) → Type 0
Outcome P k bs (ok p) = P p.0 × (length p.1 + k ≤ length bs) × All IsByte p.1
Outcome P k bs (err e) = Unit

unfoldable pub Yields : {A : Type 0} → (A → Type 0) → ℕ → Reader A → Type 0
Yields P k r = (bs : Bytes) → All IsByte bs → Outcome P k bs (r bs)

module _ {A B : Type 0} (P : A → Type 0) (Q : B → Type 0) (k j : ℕ) where
  Outcome-longer :
      (bs rest : Bytes) (y : Result GgufError (B × Bytes))
      → length rest + k ≤ length bs
      → Outcome Q j rest y
      → Outcome Q (k + j) bs y
  Outcome-longer bs rest (ok (b, r)) le (q, le', bytes) = (q, omega arith, bytes)
  Outcome-longer bs rest (err e) le u = tt

  Outcome-bind :
      (f : A → Reader B) (bs : Bytes) (x : Result GgufError (A × Bytes))
      → Outcome P k bs x
      → ((a : A) → P a → Yields Q j (f a))
      → Outcome Q (k + j) bs (elim x [ ok p ↦ f p.0 p.1 | err e ↦ err e ])
  unfolding Yields
  Outcome-bind f bs (ok (a, rest)) (p, le, bytes) h =
      Outcome-longer bs rest (f a rest) le (h a p rest bytes)
  Outcome-bind f bs (err e) u h = tt

  pub Yields-bind :
      (r : Reader A) (f : A → Reader B)
      → Yields P k r
      → ((a : A) → P a → Yields Q j (f a))
      → Yields Q (k + j) (r >>= f)
  unfolding Yields
  Yields-bind r f first second bs bytes = Outcome-bind f bs (r bs) (first bs bytes) second

module _ {A : Type 0} (P Q : A → Type 0) (k : ℕ) where
  Outcome-imp :
      (bs : Bytes) (x : Result GgufError (A × Bytes))
      → ((a : A) → P a → Q a)
      → Outcome P k bs x
      → Outcome Q k bs x
  Outcome-imp bs (ok (a, rest)) h (p, le, bytes) = (h a p, le, bytes)
  Outcome-imp bs (err e) h u = tt

  pub Yields-imp : (r : Reader A) → ((a : A) → P a → Q a) → Yields P k r → Yields Q k r
  unfolding Yields
  Yields-imp r h first bs bytes = Outcome-imp bs (r bs) h (first bs bytes)

module _ {A : Type 0} (P : A → Type 0) where
  pub Yields-pure : (a : A) → P a → Yields P 0 (pure a)
  unfolding Yields
  Yields-pure a p bs bytes = (p, omega arith, bytes)

  pub Yields-fail : (k : ℕ) (e : GgufError) → Yields P k (fail e)
  unfolding Yields
  Yields-fail k e bs bytes = tt

  pub Yields-if :
      (k : ℕ) (b : Bool) (r s : Reader A)
      → Yields P k r
      → Yields P k s
      → Yields P k (if b then r else s)
  Yields-if k true r s yr ys = yr
  Yields-if k false r s yr ys = ys

  Outcome-le :
      (j k : ℕ) (bs : Bytes) (x : Result GgufError (A × Bytes))
      → j ≤ k
      → Outcome P k bs x
      → Outcome P j bs x
  Outcome-le j k bs (ok p) le (q, short, bytes) = (q, omega arith, bytes)
  Outcome-le j k bs (err e) le u = tt

  pub Yields-le : (j k : ℕ) (r : Reader A) → j ≤ k → Yields P k r → Yields P j r
  unfolding Yields
  Yields-le j k r le h bs bytes = Outcome-le j k bs (r bs) le (h bs bytes)

  pub repeat-Yields :
      (n : ℕ) (r : Reader A)
      → Yields P 0 r
      → Yields (λ xs. (length xs ≡ n) × All P xs) 0 (repeat n r)
  unfolding repeat Yields
  repeat-Yields zero r h = λ bs bytes. ((refl, tt), omega arith, bytes)
  repeat-Yields (suc n) r h =
      let Q : List A → Type 0 = λ xs. (length xs ≡ suc n) × All P xs in
      Yields-bind P Q 0 0 r _ h (λ x p.
        Yields-bind (λ xs. (length xs ≡ n) × All P xs) Q 0 0 (repeat n r) _ (repeat-Yields n r h)
          (λ xs q. λ bs bytes. ((ap suc q.0, (p, q.1)), omega arith, bytes)))

All-take : (n : ℕ) (bs : Bytes) → All IsByte bs → All IsByte (take n bs)
All-take zero bs h = tt
All-take (suc n) [] h = tt
All-take (suc n) (b ∷ bs) h = (h.0, All-take n bs h.1)

All-drop : (n : ℕ) (bs : Bytes) → All IsByte bs → All IsByte (drop n bs)
All-drop zero bs h = h
All-drop (suc n) [] h = tt
All-drop (suc n) (b ∷ bs) h = All-drop n bs h.1

length-take-eq : (n : ℕ) (bs : Bytes) → n ≤ length bs → length (take n bs) ≡ n
length-take-eq zero bs h = refl
length-take-eq (suc n) [] h = absurd (omega arith)
length-take-eq (suc n) (b ∷ bs) h = ap suc (length-take-eq n bs (omega arith))

length-drop : (n : ℕ) (bs : Bytes) → n ≤ length bs → length (drop n bs) + n ≡ length bs
length-drop zero bs h = omega arith
length-drop (suc n) [] h = absurd (omega arith)
length-drop (suc n) (b ∷ bs) h = omega (arith, length-drop n bs (omega arith))

from_le_bytes-lt : (n : ℕ) (bs : Bytes) → length bs ≡ n → All IsByte bs → from_le_bytes bs < 256 ^ n
from_le_bytes-lt zero [] e h = omega arith
from_le_bytes-lt (suc n) [] e h = absurd (omega arith)
from_le_bytes-lt zero (b ∷ bs) e h = absurd (omega arith)
from_le_bytes-lt (suc n) (b ∷ bs) e h = omega (arith, from_le_bytes-lt n bs (omega arith) h.1, h.0)

pub read_exact-Yields : (n : ℕ) → Yields (λ s. (length s ≡ n) × All IsByte s) n (read_exact n)
unfolding Yields
read_exact-Yields n bs bytes = elim (Bool-cases (ltb (length bs) n)) [
  | inl short ↦ rw short tt
  | inr enough ↦
      let le : n ≤ length bs = ground arith in
      rw enough (
        (length-take-eq n bs le, All-take n bs bytes),
        omega (arith, length-drop n bs le),
        All-drop n bs bytes,
      )
]

pub read_le-Yields :
    (h : Host) → IsByteOrder h → (n : ℕ) → Yields (λ v. v < 256 ^ n) n (h.read_le n)
unfolding Yields
read_le-Yields h order n bs bytes =
    subst (Outcome (λ v. v < 256 ^ n) n bs) (sym (order.read_le_ok n bs)) (
      Yields-le (λ v. v < 256 ^ n) n (n + 0) _ (omega arith)
        (Yields-bind (λ s. (length s ≡ n) × All IsByte s) (λ v. v < 256 ^ n) n 0 (read_exact n) _
          (read_exact-Yields n)
          (λ s (len, all) rest more. (from_le_bytes-lt n s len all, omega arith, more)))
        bs bytes)

pub reserve-Yields : (b : Bool) → Yields (λ _. b ≡ true) 0 (reserve b)
unfolding Yields
reserve-Yields true bs bytes = (refl, omega arith, bytes)
reserve-Yields false bs bytes = tt

pub from_utf8-Yields : (s : Bytes) → Yields (λ t. (t ≡ s) × (is_utf8 s ≡ true)) 0 (from_utf8 s)
unfolding Yields
from_utf8-Yields s bs bytes = elim (Bool-cases (is_utf8 s)) [
  | inl valid ↦ rw valid ((refl, refl), omega arith, bytes)
  | inr wrong ↦ rw wrong tt
]
