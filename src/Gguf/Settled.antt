-- ===== src/Gguf/Settled.antt =====
-- Readers of crates/model-format/src/lib.rs that agree on input below a length, and never run out of fuel on it.
use tensorgrid.Base.{
  from_le_bytes, Bytes, ℕ, zero, suc, ◌+◌, ◌≡◌, ◌≢◌, ◌≤◌, ◌<◌, refl, sym, ap, subst, ◌∙◌, Bool,
  true, false, ◌∷◌, length, Result, ok, err, if◌then◌else◌, arith, All,
}
use tensorgrid.Gguf.Readers.{
  GgufError, unfinished, invalid_utf8, Host, IsByteOrder, Reader, ◌>>=◌, pure, fail, read_exact,
  is_utf8, from_utf8, reserve, repeat,
}
use tensorgrid.Gguf.Yields.{IsByte, Outcome, Yields, read_exact-Yields, repeat-Yields}

unfoldable pub Settled : {A : Type 0} → ℕ → Reader A → Reader A → Type 0
Settled n r r' =
    (bs : Bytes) → All IsByte bs → length bs < n → (r bs ≡ r' bs) × (r bs ≢ err unfinished)

module _ {A B : Type 0} (P : A → Type 0) (n m k : ℕ) (fit : n ≤ m + k) where
  settle :
      (f f' : A → Reader B) (bs : Bytes) (x : Result GgufError (A × Bytes))
      → Outcome P k bs x
      → x ≢ err unfinished
      → length bs < n
      → ((a : A) → Settled m (f a) (f' a))
      → (elim x [ ok p ↦ f p.0 p.1 | err e ↦ err e ] ≡ elim x [ ok p ↦ f' p.0 p.1 | err e ↦ err e ])
        × (elim x [ ok p ↦ f p.0 p.1 | err e ↦ err e ] ≢ err unfinished)
  unfolding Settled
  settle f f' bs (ok (a, rest)) (p, le, bytes) clean short h = h a rest bytes (omega arith)
  settle f f' bs (err e) u clean short h =
      (refl, λ bad. clean (ap (λ r. elim r [ ok p ↦ err unfinished | err d ↦ err d ]) bad))

  pub Settled-bind :
      (r r' : Reader A) (f f' : A → Reader B)
      → Yields P k r
      → Settled n r r'
      → ((a : A) → Settled m (f a) (f' a))
      → Settled n (r >>= f) (r' >>= f')
  unfolding Settled Yields
  Settled-bind r r' f f' y first second bs bytes short =
      let one = first bs bytes short in
      let both = settle f f' bs (r bs) (y bs bytes) one.1 short second in
      (both.0 ∙ ap (λ x. elim x [ ok p ↦ f' p.0 p.1 | err e ↦ err e ]) one.0, both.1)

ok≢unfinished : {A : Type 0} (p : A × Bytes) → ok p ≢ err unfinished
ok≢unfinished p e = ground arith

pub Settled-fail :
    (A : Type 0) (n : ℕ) (e : GgufError) → e ≢ unfinished → Settled {A = A} n (fail e) (fail e)
unfolding Settled
Settled-fail A n e other bs bytes short =
    (refl, λ same. other (ap (λ r. elim r [ ok p ↦ unfinished | err d ↦ d ]) same))

module _ {A : Type 0} where
  pub Settled-pure : (n : ℕ) (a : A) → Settled n (pure a) (pure a)
  unfolding Settled
  Settled-pure n a bs bytes short = (refl, λ e. absurd (ground arith))

  pub Settled-zero : (r r' : Reader A) → Settled 0 r r'
  unfolding Settled
  Settled-zero r r' bs bytes short = absurd (omega arith)

  pub Settled-if :
      (n : ℕ) (b : Bool) (r s : Reader A)
      → Settled n r r
      → Settled n s s
      → Settled n (if b then r else s) (if b then r else s)
  Settled-if n true r s h i = h
  Settled-if n false r s h i = i

  pub Settled-le : (m n : ℕ) (r r' : Reader A) → m ≤ n → Settled n r r' → Settled m r r'
  unfolding Settled
  Settled-le m n r r' le h bs bytes short = h bs bytes (omega arith)

pub repeat-Settled :
    {A : Type 0} (P : A → Type 0) (n k : ℕ) (r : Reader A)
    → Yields P 0 r
    → Settled n r r
    → Settled n (repeat k r) (repeat k r)
unfolding repeat
repeat-Settled P n zero r y h = Settled-pure n _
repeat-Settled P n (suc k) r y h = Settled-bind P n n 0 (omega arith) r r _ _ y h (λ x.
    Settled-bind (λ xs. (length xs ≡ k) × All P xs) n n 0 (omega arith) (repeat k r) (repeat k r) _
      _ (repeat-Yields P k r y) (repeat-Settled P n k r y h) (λ xs. Settled-pure n (x ∷ xs)))

pub read_exact-Settled : (n k : ℕ) → Settled n (read_exact k) (read_exact k)
unfolding Settled
read_exact-Settled n k bs bytes short = (refl, λ e. absurd (ground arith))

pub read_le-Settled : (h : Host) → IsByteOrder h → (n k : ℕ) → Settled n (h.read_le k) (h.read_le k)
unfolding Settled
read_le-Settled h order n k bs bytes short = (
  refl,
  subst (λ x. x ≢ err unfinished) (sym (order.read_le_ok k bs))
      ((Settled-bind (λ s. (length s ≡ k) × All IsByte s) n n k (omega arith) (read_exact k)
        (read_exact k) _ _ (read_exact-Yields k) (read_exact-Settled n k)
        (λ s. Settled-pure n (from_le_bytes s)) bs bytes short).1),
)

pub reserve-Settled : (n : ℕ) (b : Bool) → Settled n (reserve b) (reserve b)
unfolding Settled
reserve-Settled n true bs bytes short = (refl, λ e. absurd (ground arith))
reserve-Settled n false bs bytes short = (refl, λ e. absurd (ground arith))

pub from_utf8-Settled : (n : ℕ) (s : Bytes) → Settled n (from_utf8 s) (from_utf8 s)
from_utf8-Settled n s =
    Settled-if n (is_utf8 s) _ _ (Settled-pure n s)
      (Settled-fail Bytes n invalid_utf8 (λ e. absurd (ground arith)))
