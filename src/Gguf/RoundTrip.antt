-- ===== src/Gguf/RoundTrip.antt =====
-- What is written by Gguf/Encoding.antt, the reader of crates/model-format/src/lib.rs reads back.
use mathlib.Core.List.{append_assoc}
use mathlib.Core.Bool.{false≢true}
use tensorgrid.Base.{
  to_le_bytes, Bytes, ℕ, zero, suc, ◌*◌, ◌^◌, ◌≡◌, ◌<◌, refl, ap, subst, ◌∙◌, Bool, true, false,
  ◌++◌, length, ok, arith, not, ◌==◌,
}
use tensorgrid.Gguf.{
  ℤ, GgufValue, Items, nil, cons, uint8, uint16, uint32, uint64, int8, int16, int32, int64, float32,
  float64, boolean, string, array,
}
use tensorgrid.Gguf.Readers.{
  Host, IsByteOrder, Reader, ◌>>=◌, >>=-ok, pure, read_exact, signed, is_utf8, from_utf8, reserve,
}
use tensorgrid.Gguf.Parser.{read_u32, read_u64, read_string, read_items, read_array, read_value}
use tensorgrid.Gguf.Encoding.{
  unsigned, type_id, element_type, count, encode_string, encode_value, encode_items, depth,
  depth_items, IsSigned, IsText, IsWritable, AreWritable, read_exact-append, read_le-append,
  signed-unsigned, unsigned-lt,
}

-- From bytes that start so, the reader takes them and gives the value.
unfoldable pub Reads : {A : Type 0} → Reader A → Bytes → A → Type 0
Reads r s a = (rest : Bytes) → r (s ++ rest) ≡ ok (a, rest)

module _ {A B : Type 0} (r : Reader A) (s : Bytes) (a : A) where
  pub Reads-bind :
      (f : A → Reader B) (t : Bytes) (b : B)
      → Reads r s a
      → Reads (f a) t b
      → Reads (r >>= f) (s ++ t) b
  unfolding Reads
  Reads-bind f t b first second rest =
      rw (append_assoc s t rest)
        (>>=-ok r f (s ++ (t ++ rest)) a (t ++ rest) (first (t ++ rest)) ∙ second rest)

  pub Reads-map : (f : A → B) → Reads r s a → Reads (r >>= λ x. pure (f x)) s (f a)
  unfolding Reads
  Reads-map f first rest = >>=-ok r (λ x. pure (f x)) (s ++ rest) a rest (first rest)

pub type_id-lt : (v : GgufValue) → type_id v < 2 ^ 32
type_id-lt (uint8 n) = omega arith
type_id-lt _ = omega arith

-- Memory is there: nothing is read.
pub Reads-reserve :
    {B : Type 0} (b : Bool) (k : Unit → Reader B) (t : Bytes) (x : B)
    → b ≡ true
    → Reads (k tt) t x
    → Reads (reserve b >>= k) t x
unfolding Reads
Reads-reserve true k t x e h rest = h rest
Reads-reserve false k t x e h rest = absurd (false≢true e)

module _ (h : Host) (order : IsByteOrder h) where
  pub read_le-Reads : (k n : ℕ) → n < 256 ^ k → Reads (h.read_le k) (to_le_bytes k n) n
  unfolding Reads
  read_le-Reads k n small rest = read_le-append h order k n rest small

  read_text-Reads :
      (s : Bytes) → is_utf8 s ≡ true → Reads (do bytes ← read_exact (length s); from_utf8 bytes) s s
  unfolding Reads
  read_text-Reads s valid rest =
      >>=-ok (read_exact (length s)) from_utf8 (s ++ rest) s rest
        (read_exact-append (length s) s rest refl)
      ∙ rw valid refl

  pub read_string-Reads : (s : Bytes) → IsText h s → Reads (read_string h) (encode_string s) s
  read_string-Reads s (valid, short, fits) =
      Reads-bind (read_u64 h) (to_le_bytes 8 (length s)) (length s) _ s s
        (read_le-Reads 8 (length s) short)
        (Reads-reserve (h.fits_bytes (length s)) _ s s fits (read_text-Reads s valid))

  -- An array, if its elements are read back.
  read_array-Reads :
      (read_element : ℕ → Reader GgufValue) (vs : Items)
      → element_type vs < 2 ^ 32
      → count vs < 2 ^ 64
      → h.fits_values (count vs) ≡ true
      → Reads (read_items h (count vs) (read_element (element_type vs))) (encode_items vs) vs
      → Reads (read_array h read_element) (encode_value (array vs)) vs
  unfolding encode_value
  read_array-Reads read_element vs small short fits inner =
      Reads-bind (read_u32 h) (to_le_bytes 4 (element_type vs)) (element_type vs) _
        (to_le_bytes 8 (count vs) ++ encode_items vs) vs (read_le-Reads 4 (element_type vs) small)
        (Reads-bind (read_u64 h) (to_le_bytes 8 (count vs)) (count vs) _ (encode_items vs) vs
          (read_le-Reads 8 (count vs) short)
          (Reads-reserve (h.fits_values (count vs)) _ (encode_items vs) vs fits inner))

  element_type-lt : (vs : Items) → element_type vs < 2 ^ 32
  element_type-lt nil = omega arith
  element_type-lt (cons v vs) = type_id-lt v

  -- One arm of the match: a number that is read and turned into a value.
  read_number-Reads :
      (k n : ℕ) (f : ℕ → GgufValue) (v : GgufValue)
      → n < 256 ^ k
      → f n ≡ v
      → Reads (do m ← h.read_le k; pure (f m)) (to_le_bytes k n) v
  read_number-Reads k n f v small e =
      subst (Reads (do m ← h.read_le k; pure (f m)) (to_le_bytes k n)) e
        (Reads-map (h.read_le k) (to_le_bytes k n) n f (read_le-Reads k n small))

  -- A signed number of k bytes.
  read_signed-Reads :
      (k half : ℕ) (z : ℤ) (f : ℤ → GgufValue)
      → 2 * half ≡ 256 ^ k
      → IsSigned half z
      → Reads (do m ← h.read_le k; pure (f (signed half m))) (to_le_bytes k (unsigned half z)) (f z)
  read_signed-Reads k half z f e small =
      read_number-Reads k (unsigned half z) (λ m. f (signed half m)) (f z)
        (subst (λ m. unsigned half z < m) e (unsigned-lt half z small))
        (ap f (signed-unsigned half z small))

  mutual
    unfolding Reads read_value read_items encode_value depth IsWritable

    pub read_value-Reads :
        (fuel : ℕ) (v : GgufValue)
        → depth v < fuel
        → IsWritable h v
        → Reads (read_value h fuel (type_id v)) (encode_value v) v
    read_value-Reads zero v deep w = absurd (omega arith)
    read_value-Reads (suc fuel) (uint8 n) deep w = read_number-Reads 1 n uint8 (uint8 n) w refl
    read_value-Reads (suc fuel) (int8 z) deep w = read_signed-Reads 1 (2 ^ 7) z int8 refl w
    read_value-Reads (suc fuel) (uint16 n) deep w = read_number-Reads 2 n uint16 (uint16 n) w refl
    read_value-Reads (suc fuel) (int16 z) deep w = read_signed-Reads 2 (2 ^ 15) z int16 refl w
    read_value-Reads (suc fuel) (uint32 n) deep w = read_number-Reads 4 n uint32 (uint32 n) w refl
    read_value-Reads (suc fuel) (int32 z) deep w = read_signed-Reads 4 (2 ^ 31) z int32 refl w
    read_value-Reads (suc fuel) (float32 n) deep w =
        read_number-Reads 4 n float32 (float32 n) w refl
    read_value-Reads (suc fuel) (boolean true) deep w =
        read_number-Reads 1 1 (λ n. boolean (not (n == 0))) (boolean true) (omega arith) refl
    read_value-Reads (suc fuel) (boolean false) deep w =
        read_number-Reads 1 0 (λ n. boolean (not (n == 0))) (boolean false) (omega arith) refl
    read_value-Reads (suc fuel) (string s) deep w =
        Reads-map (read_string h) (encode_string s) s string (read_string-Reads s w)
    read_value-Reads (suc fuel) (array vs) deep (short, fits, same) =
        Reads-map (read_array h (read_value h fuel)) (encode_value (array vs)) vs array (
          read_array-Reads (read_value h fuel) vs (element_type-lt vs) short fits
            (read_items-Reads fuel (element_type vs) vs (omega arith) same))
    read_value-Reads (suc fuel) (uint64 n) deep w = read_number-Reads 8 n uint64 (uint64 n) w refl
    read_value-Reads (suc fuel) (int64 z) deep w = read_signed-Reads 8 (2 ^ 63) z int64 refl w
    read_value-Reads (suc fuel) (float64 n) deep w =
        read_number-Reads 8 n float64 (float64 n) w refl

    read_items-Reads :
        (fuel ty : ℕ) (vs : Items)
        → depth_items vs < fuel
        → AreWritable h ty vs
        → Reads (read_items h (count vs) (read_value h fuel ty)) (encode_items vs) vs
    read_items-Reads fuel ty nil deep w = λ rest. refl
    read_items-Reads fuel ty (cons v vs) deep (e, w, ws) =
        let r = read_value h fuel ty in
        Reads-bind r (encode_value v) v _ (encode_items vs) (cons v vs)
          (subst (λ t. Reads (read_value h fuel t) (encode_value v) v) e
            (read_value-Reads fuel v (omega arith) w))
          (Reads-map (read_items h (count vs) r) (encode_items vs) vs (cons v)
            (read_items-Reads fuel ty vs (omega arith) ws))
