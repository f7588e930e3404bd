-- ===== src/Gguf/Typing.antt =====
-- crates/model-format/src/lib.rs: what the parser accepts is well formed.
use tensorgrid.Base.{
  Bytes, Option, ℕ, zero, suc, ◌+◌, ◌*◌, ◌^◌, ◌≡◌, ◌≤◌, ◌<◌, refl, sym, ap, subst, true, length,
  arith, All, Bool-cases, inl, inr, ltb, ◌==◌, not, none, some,
}
use tensorgrid.Gguf.{
  GgufValue, Items, nil, cons, uint8, uint16, uint32, uint64, int8, int16, int32, int64, float32,
  float64, boolean, string, array, bytes_key,
}
use tensorgrid.Gguf.Readers.{
  Host, IsByteOrder, Reader, ◌>>=◌, pure, fail, read_exact, signed, is_utf8, from_utf8, reserve,
  unknown_value_type, unfinished,
}
use tensorgrid.Gguf.Parser.{
  ValueType, uint8_type, int8_type, uint16_type, int16_type, uint32_type, int32_type, float32_type,
  boolean_type, string_type, array_type, uint64_type, int64_type, float64_type, value_type_from_id,
  read_u32, read_u64, read_string, read_items, read_array, read_as, read_value,
}
use tensorgrid.Gguf.Encoding.{
  type_id, element_type, count, IsSigned, IsText, IsWritable, AreWritable,
}
use tensorgrid.Gguf.Yields.{
  IsByte, Yields, Yields-bind, Yields-imp, Yields-pure, Yields-fail, Yields-le, read_exact-Yields,
  read_le-Yields, reserve-Yields, from_utf8-Yields,
}

signed-IsSigned : (half n : ℕ) → n < 2 * half → IsSigned half (signed half n)
signed-IsSigned half n small = elim (Bool-cases (ltb n half)) [
  | inl low ↦ let le : n < half = ground arith in rw low le
  | inr high ↦ let ge : half ≤ n = ground arith in rw high (omega arith)
]

-- The identifier of an arm.
abbrev id_of : ValueType → ℕ
id_of uint8_type = 0
id_of int8_type = 1
id_of uint16_type = 2
id_of int16_type = 3
id_of uint32_type = 4
id_of int32_type = 5
id_of float32_type = 6
id_of boolean_type = 7
id_of string_type = 8
id_of array_type = 9
id_of uint64_type = 10
id_of int64_type = 11
id_of float64_type = 12

value_type_from_id-id_of : (n : ℕ) (t : ValueType) → value_type_from_id n ≡ some t → id_of t ≡ n
value_type_from_id-id_of n t h = ground arith

-- A value of the type that was asked for.
abbrev pub IsOf : Host → ℕ → GgufValue → Type 0
IsOf h ty v = (type_id v ≡ ty) × IsWritable h v

module _ (h : Host) (order : IsByteOrder h) where
  text :
      (s : Bytes) (n : ℕ)
      → length s ≡ n
      → is_utf8 s ≡ true
      → n < 2 ^ 64
      → h.fits_bytes n ≡ true
      → IsText h s
  text s n len valid small fits =
      (valid, omega arith, subst (λ l. h.fits_bytes l ≡ true) (sym len) fits)

  pub read_string-Yields : Yields (IsText h) 8 (read_string h)
  read_string-Yields =
      Yields-bind (λ n. n < 2 ^ 64) (IsText h) 8 0 (read_u64 h) _ (read_le-Yields h order 8)
        (λ n small.
          Yields-bind (λ _. h.fits_bytes n ≡ true) (IsText h) 0 0 (reserve (h.fits_bytes n)) _
            (reserve-Yields (h.fits_bytes n))
            (λ u fits. Yields-le (IsText h) 0 (n + 0) _ (omega arith) (
              Yields-bind (λ s. (length s ≡ n) × All IsByte s) (IsText h) n 0 (read_exact n) _
                (read_exact-Yields n)
                (λ s (len, all).
                  Yields-imp (λ t. (t ≡ s) × (is_utf8 s ≡ true)) (IsText h) 0 (from_utf8 s)
                    (λ t (same, valid). subst (IsText h) (sym same) (text s n len valid small fits))
                    (from_utf8-Yields s)))))

  -- One arm of the match that reads a number.
  read_number-Yields :
      (k ty : ℕ) (f : ℕ → GgufValue)
      → ((n : ℕ) → n < 256 ^ k → IsOf h ty (f n))
      → Yields (IsOf h ty) 0 (do n ← h.read_le k; pure (f n))
  read_number-Yields k ty f fits = Yields-le (IsOf h ty) 0 (k + 0) _ (omega arith) (
      Yields-bind (λ n. n < 256 ^ k) (IsOf h ty) k 0 (h.read_le k) _ (read_le-Yields h order k)
        (λ n small. Yields-pure (IsOf h ty) (f n) (fits n small)))

  pub read_items-Yields :
      (ty n : ℕ) (r : Reader GgufValue)
      → Yields (IsOf h ty) 0 r
      → Yields (λ vs. (count vs ≡ n) × AreWritable h ty vs) 0 (read_items h n r)
  unfolding read_items Yields IsWritable
  read_items-Yields ty zero r one = λ bs bytes. ((refl, tt), omega arith, bytes)
  read_items-Yields ty (suc n) r one =
      let Q : Items → Type 0 = λ vs. (count vs ≡ suc n) × AreWritable h ty vs in
      Yields-bind (IsOf h ty) Q 0 0 r _ one (λ v p.
        Yields-bind (λ vs. (count vs ≡ n) × AreWritable h ty vs) Q 0 0 (read_items h n r) _
          (read_items-Yields ty n r one)
          (λ vs q. λ bs bytes. ((ap suc q.0, (p.0, p.1, q.1)), omega arith, bytes)))

  -- Values of one type, whatever it is, have the type of the first.
  AreWritable-element_type :
      (ty : ℕ) (vs : Items) → AreWritable h ty vs → AreWritable h (element_type vs) vs
  unfolding IsWritable
  AreWritable-element_type ty nil w = tt
  AreWritable-element_type ty (cons v vs) w = subst (λ t. AreWritable h t (cons v vs)) (sym w.0) w

  abbrev pub IsArray : Items → Type 0
  IsArray vs =
      (count vs < 2 ^ 64) × (h.fits_values (count vs) ≡ true) × AreWritable h (element_type vs) vs

  IsArray-count :
      (ty n : ℕ) (vs : Items)
      → n < 2 ^ 64
      → h.fits_values n ≡ true
      → (count vs ≡ n) × AreWritable h ty vs
      → IsArray vs
  IsArray-count ty n vs small fits (len, same) = (
    omega arith,
    subst (λ l. h.fits_values l ≡ true) (sym len) fits,
    AreWritable-element_type ty vs same,
  )

  -- An array's header takes 12 bytes.
  pub read_array-Yields :
      (read_element : ℕ → Reader GgufValue)
      → ((ty : ℕ) → Yields (IsOf h ty) 0 (read_element ty))
      → Yields IsArray 12 (read_array h read_element)
  read_array-Yields read_element one =
      Yields-bind (λ n. n < 2 ^ 32) IsArray 4 8 (read_u32 h) _ (read_le-Yields h order 4)
        (λ ty ty_small.
          Yields-bind (λ n. n < 2 ^ 64) IsArray 8 0 (read_u64 h) _ (read_le-Yields h order 8)
            (λ n small.
              Yields-bind (λ _. h.fits_values n ≡ true) IsArray 0 0 (reserve (h.fits_values n)) _
                (reserve-Yields (h.fits_values n))
                (λ u fits.
                  Yields-imp (λ vs. (count vs ≡ n) × AreWritable h ty vs) IsArray 0
                    (read_items h n (read_element ty)) (λ vs. IsArray-count ty n vs small fits)
                    (read_items-Yields ty n (read_element ty) (one ty)))))

  read_as-Yields :
      (read_element : ℕ → Reader GgufValue) (t : ValueType)
      → ((ty : ℕ) → Yields (IsOf h ty) 0 (read_element ty))
      → Yields (IsOf h (id_of t)) 0 (read_as h read_element t)
  unfolding IsWritable
  read_as-Yields read_element uint8_type one =
      read_number-Yields 1 0 uint8 (λ n small. (refl, small))
  read_as-Yields read_element int8_type one =
      read_number-Yields 1 1 (λ n. int8 (signed (2 ^ 7) n))
        (λ n small. (refl, signed-IsSigned (2 ^ 7) n (omega arith)))
  read_as-Yields read_element uint16_type one =
      read_number-Yields 2 2 uint16 (λ n small. (refl, small))
  read_as-Yields read_element int16_type one =
      read_number-Yields 2 3 (λ n. int16 (signed (2 ^ 15) n))
        (λ n small. (refl, signed-IsSigned (2 ^ 15) n (omega arith)))
  read_as-Yields read_element uint32_type one =
      read_number-Yields 4 4 uint32 (λ n small. (refl, small))
  read_as-Yields read_element int32_type one =
      read_number-Yields 4 5 (λ n. int32 (signed (2 ^ 31) n))
        (λ n small. (refl, signed-IsSigned (2 ^ 31) n (omega arith)))
  read_as-Yields read_element float32_type one =
      read_number-Yields 4 6 float32 (λ n small. (refl, small))
  read_as-Yields read_element boolean_type one =
      read_number-Yields 1 7 (λ n. boolean (not (n == 0))) (λ n small. (refl, tt))
  read_as-Yields read_element string_type one = Yields-le (IsOf h 8) 0 8 _ (omega arith) (
      Yields-bind (IsText h) (IsOf h 8) 8 0 (read_string h) _ read_string-Yields
        (λ s w. Yields-pure (IsOf h 8) (string s) (refl, w)))
  read_as-Yields read_element array_type one = Yields-le (IsOf h 9) 0 12 _ (omega arith) (
      Yields-bind IsArray (IsOf h 9) 12 0 (read_array h read_element) _
        (read_array-Yields read_element one) (λ vs w. Yields-pure (IsOf h 9) (array vs) (refl, w)))
  read_as-Yields read_element uint64_type one =
      read_number-Yields 8 10 uint64 (λ n small. (refl, small))
  read_as-Yields read_element int64_type one =
      read_number-Yields 8 11 (λ n. int64 (signed (2 ^ 63) n))
        (λ n small. (refl, signed-IsSigned (2 ^ 63) n (omega arith)))
  read_as-Yields read_element float64_type one =
      read_number-Yields 8 12 float64 (λ n small. (refl, small))

  arm-Yields :
      (read_element : ℕ → Reader GgufValue) (ty : ℕ) (arm : Option ValueType)
      → ((t : ValueType) → arm ≡ some t → id_of t ≡ ty)
      → ((i : ℕ) → Yields (IsOf h i) 0 (read_element i))
      → Yields
          (IsOf h ty)
          0
          (elim arm [ none ↦ fail (unknown_value_type ty) | some t ↦ read_as h read_element t ])
  arm-Yields read_element ty none same one = Yields-fail (IsOf h ty) 0 (unknown_value_type ty)
  arm-Yields read_element ty (some t) same one =
      subst (λ i. Yields (IsOf h i) 0 (read_as h read_element t)) (same t refl)
        (read_as-Yields read_element t one)

  pub read_value-Yields : (fuel ty : ℕ) → Yields (IsOf h ty) 0 (read_value h fuel ty)
  unfolding read_value
  read_value-Yields zero ty = Yields-fail (IsOf h ty) 0 unfinished
  read_value-Yields (suc fuel) ty =
      arm-Yields (read_value h fuel) ty (value_type_from_id ty) (value_type_from_id-id_of ty)
        (read_value-Yields fuel)
