-- ===== src/Gguf/Finishing.antt =====
-- crates/model-format/src/lib.rs: the parser finishes, whatever the bytes: the fuel is enough.
use tensorgrid.Base.{
  Bytes, ℕ, zero, suc, ◌+◌, ◌≡◌, ◌≤◌, ◌<◌, ◌^◌, String, Bool, true, not, length, arith, All, ◌==◌,
  Option, none, some,
}
use tensorgrid.Gguf.{
  GgufValue, nil, cons, uint8, uint16, uint32, uint64, int8, int16, int32, int64, float32, float64,
  boolean, string, array, bytes_key,
}
use tensorgrid.Gguf.Readers.{
  unknown_type_id, unknown_value_type, Host, IsByteOrder, Reader, ◌>>=◌, pure, fail, signed,
  read_exact, reserve,
}
use tensorgrid.Gguf.Parser.{
  dtype_name, ValueType, uint8_type, int8_type, uint16_type, int16_type, uint32_type, int32_type,
  float32_type, boolean_type, string_type, array_type, uint64_type, int64_type, float64_type,
  value_type_from_id, dtype_from_id, read_string, read_items, read_array, read_as, read_value,
}
use tensorgrid.Gguf.Encoding.{IsText}
use tensorgrid.Gguf.Yields.{IsByte, Yields, read_exact-Yields, read_le-Yields, reserve-Yields}
use tensorgrid.Gguf.Typing.{
  read_array-Yields, read_items-Yields, IsArray, IsOf, read_string-Yields, read_value-Yields,
}
use tensorgrid.Gguf.Settled.{
  Settled-zero, Settled, Settled-bind, Settled-pure, Settled-fail, Settled-le, read_exact-Settled,
  read_le-Settled, reserve-Settled, from_utf8-Settled,
}

named-Settled :
    (n i : ℕ) (o : Option String)
    → let r = elim o as (λ x. Reader String) [
      | some t ↦ pure t
      | none ↦ fail (unknown_type_id i)
    ] in
      Settled n r r
named-Settled n i none = Settled-fail String n (unknown_type_id i) (λ e. absurd (ground arith))
named-Settled n i (some t) = Settled-pure n t

pub dtype_from_id-Settled : (n i : ℕ) → Settled n (dtype_from_id i) (dtype_from_id i)
dtype_from_id-Settled n i = named-Settled n i (dtype_name i)

module _ (h : Host) (order : IsByteOrder h) where
  -- Read a number first.
  number_first :
      {B : Type 0} (n k : ℕ) (f f' : ℕ → Reader B)
      → ((v : ℕ) → Settled n (f v) (f' v))
      → Settled (n + k) (h.read_le k >>= f) (h.read_le k >>= f')
  number_first n k f f' rest =
      Settled-bind (λ v. v < 256 ^ k) (n + k) n k (omega arith) (h.read_le k) (h.read_le k) f f'
        (read_le-Yields h order k) (read_le-Settled h order (n + k) k) rest

  -- The same where its bytes do not count.
  pub number_then :
      {B : Type 0} (n k : ℕ) (f f' : ℕ → Reader B)
      → ((v : ℕ) → Settled n (f v) (f' v))
      → Settled n (h.read_le k >>= f) (h.read_le k >>= f')
  number_then n k f f' rest = Settled-le n (n + k) _ _ (omega arith) (number_first n k f f' rest)

  pub reserve_then :
      {B : Type 0} (n : ℕ) (b : Bool) (f f' : Unit → Reader B)
      → ((u : Unit) → Settled n (f u) (f' u))
      → Settled n (reserve b >>= f) (reserve b >>= f')
  reserve_then n b f f' rest =
      Settled-bind (λ _. b ≡ true) n n 0 (omega arith) (reserve b) (reserve b) f f'
        (reserve-Yields b) (reserve-Settled n b) rest

  pub read_string-Settled : (n : ℕ) → Settled n (read_string h) (read_string h)
  read_string-Settled n = number_then n 8 _ _ (λ len. reserve_then n (h.fits_bytes len) _ _ (λ u.
      Settled-bind (λ s. (length s ≡ len) × All IsByte s) n n len (omega arith) (read_exact len)
        (read_exact len) _ _ (read_exact-Yields len) (read_exact-Settled n len)
        (from_utf8-Settled n)))

  pub string_then :
      {B : Type 0} (n : ℕ) (f f' : Bytes → Reader B)
      → ((s : Bytes) → Settled n (f s) (f' s))
      → Settled n (read_string h >>= f) (read_string h >>= f')
  string_then n f f' rest =
      Settled-bind (IsText h) n n 8 (omega arith) (read_string h) (read_string h) f f'
        (read_string-Yields h order) (read_string-Settled n) rest

  read_items-Settled :
      (n ty k : ℕ) (r r' : Reader GgufValue)
      → Yields (IsOf h ty) 0 r
      → Settled n r r'
      → Settled n (read_items h k r) (read_items h k r')
  unfolding read_items
  read_items-Settled n ty zero r r' y s = Settled-pure n nil
  read_items-Settled n ty (suc k) r r' y s =
      Settled-bind (IsOf h ty) n n 0 (omega arith) r r' _ _ y s (λ v.
        Settled-bind _ n n 0 (omega arith) (read_items h k r) (read_items h k r') _ _
          (read_items-Yields h order ty k r y) (read_items-Settled n ty k r r' y s)
          (λ vs. Settled-pure n (cons v vs)))

  read_number-Settled :
      (n k : ℕ) (f : ℕ → GgufValue)
      → Settled n (do m ← h.read_le k; pure (f m)) (do m ← h.read_le k; pure (f m))
  read_number-Settled n k f = number_then n k _ _ (λ m. Settled-pure n (f m))

  read_array-Settled :
      (n : ℕ) (read read' : ℕ → Reader GgufValue)
      → ((ty : ℕ) → Yields (IsOf h ty) 0 (read ty))
      → ((ty : ℕ) → Settled n (read ty) (read' ty))
      → Settled (suc n) (read_array h read) (read_array h read')
  read_array-Settled n read read' y s = Settled-le (suc n) (n + 8 + 4) _ _ (omega arith) (
      number_first (n + 8) 4 _ _ (λ ty. number_first n 8 _ _ (λ k.
        reserve_then n (h.fits_values k) _ _
          (λ u. read_items-Settled n ty k (read ty) (read' ty) (y ty) (s ty)))))

  read_as-Settled :
      (n : ℕ) (read read' : ℕ → Reader GgufValue) (t : ValueType)
      → ((ty : ℕ) → Yields (IsOf h ty) 0 (read ty))
      → ((ty : ℕ) → Settled n (read ty) (read' ty))
      → Settled (suc n) (read_as h read t) (read_as h read' t)
  read_as-Settled n read read' uint8_type y s = read_number-Settled (suc n) 1 (λ m. uint8 m)
  read_as-Settled n read read' int8_type y s =
      read_number-Settled (suc n) 1 (λ m. int8 (signed (2 ^ 7) m))
  read_as-Settled n read read' uint16_type y s = read_number-Settled (suc n) 2 (λ m. uint16 m)
  read_as-Settled n read read' int16_type y s =
      read_number-Settled (suc n) 2 (λ m. int16 (signed (2 ^ 15) m))
  read_as-Settled n read read' uint32_type y s = read_number-Settled (suc n) 4 (λ m. uint32 m)
  read_as-Settled n read read' int32_type y s =
      read_number-Settled (suc n) 4 (λ m. int32 (signed (2 ^ 31) m))
  read_as-Settled n read read' float32_type y s = read_number-Settled (suc n) 4 (λ m. float32 m)
  read_as-Settled n read read' boolean_type y s =
      read_number-Settled (suc n) 1 (λ m. boolean (not (m == 0)))
  read_as-Settled n read read' string_type y s =
      Settled-bind (IsText h) (suc n) (suc n) 8 (omega arith) (read_string h) (read_string h) _ _
        (read_string-Yields h order) (read_string-Settled (suc n))
        (λ s. Settled-pure (suc n) (string s))
  read_as-Settled n read read' array_type y s =
      Settled-bind (IsArray h order) (suc n) (suc n) 12 (omega arith) (read_array h read)
        (read_array h read') _ _ (read_array-Yields h order read y)
        (read_array-Settled n read read' y s) (λ vs. Settled-pure (suc n) (array vs))
  read_as-Settled n read read' uint64_type y s = read_number-Settled (suc n) 8 (λ m. uint64 m)
  read_as-Settled n read read' int64_type y s =
      read_number-Settled (suc n) 8 (λ m. int64 (signed (2 ^ 63) m))
  read_as-Settled n read read' float64_type y s = read_number-Settled (suc n) 8 (λ m. float64 m)

  arm-Settled :
      (n : ℕ) (read read' : ℕ → Reader GgufValue) (ty : ℕ) (arm : Option ValueType)
      → ((i : ℕ) → Yields (IsOf h i) 0 (read i))
      → ((i : ℕ) → Settled n (read i) (read' i))
      → Settled
          (suc n)
          (elim arm as (λ a. Reader GgufValue) [
            | none ↦ fail (unknown_value_type ty)
            | some t ↦ read_as h read t
          ])
          (elim arm as (λ a. Reader GgufValue) [
            | none ↦ fail (unknown_value_type ty)
            | some t ↦ read_as h read' t
          ])
  arm-Settled n read read' ty none y s =
      Settled-fail GgufValue (suc n) (unknown_value_type ty) (λ e. absurd (ground arith))
  arm-Settled n read read' ty (some t) y s = read_as-Settled n read read' t y s

  -- One unit of fuel for each byte and one more is enough.
  pub read_value-Settled :
      (n fuel fuel' ty : ℕ)
      → n ≤ fuel
      → n ≤ fuel'
      → Settled n (read_value h fuel ty) (read_value h fuel' ty)
  unfolding read_value
  read_value-Settled zero fuel fuel' ty more more' = Settled-zero _ _
  read_value-Settled (suc n) zero fuel' ty more more' = absurd (omega arith)
  read_value-Settled (suc n) (suc fuel) zero ty more more' = absurd (omega arith)
  read_value-Settled (suc n) (suc fuel) (suc fuel') ty more more' =
      arm-Settled n (read_value h fuel) (read_value h fuel') ty (value_type_from_id ty)
        (read_value-Yields h order fuel)
        (λ i. read_value-Settled n fuel fuel' i (omega arith) (omega arith))
