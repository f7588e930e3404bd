-- ===== src/Gguf/Encoding.antt =====
-- The bytes that stand for a GGUF model, and which models have such bytes.
use tensorgrid.Base.{
  from_le_bytes, to_le_bytes, from_le_bytes-to_le_bytes, take-append, drop-append,
  length-to_le_bytes, Bytes, ℕ, suc, ◌-◌, ◌*◌, ◌^◌, ◌≡◌, ◌≤◌, ◌<◌, max, refl, ap, ◌∙◌, true, false,
  [], ◌∷◌, ◌++◌, length, ok, ltb, arith, length-append,
}
use tensorgrid.Gguf.{
  ℤ, pos, negsuc, GgufValue, Items, nil, cons, uint8, uint16, uint32, uint64, int8, int16, int32,
  int64, float32, float64, boolean, string, array,
}
use tensorgrid.Gguf.Readers.{Host, IsByteOrder, read_exact, signed, pure, >>=-ok, is_utf8}

abbrev pub unsigned : ℕ → ℤ → ℕ
unsigned half (pos n) = n
unsigned half (negsuc n) = 2 * half - 1 - n

abbrev pub type_id : GgufValue → ℕ
type_id (uint8 n) = 0
type_id (int8 n) = 1
type_id (uint16 n) = 2
type_id (int16 n) = 3
type_id (uint32 n) = 4
type_id (int32 n) = 5
type_id (float32 n) = 6
type_id (boolean b) = 7
type_id (string s) = 8
type_id (array vs) = 9
type_id (uint64 n) = 10
type_id (int64 n) = 11
type_id (float64 n) = 12

-- An empty array may claim any element type.
abbrev pub element_type : Items → ℕ
element_type nil = 0
element_type (cons v vs) = type_id v

abbrev pub count : Items → ℕ
count nil = 0
count (cons v vs) = suc (count vs)

abbrev pub encode_string : Bytes → Bytes
encode_string s = to_le_bytes 8 (length s) ++ s

unfoldable mutual
  pub encode_value : GgufValue → Bytes
  encode_value (uint8 n) = to_le_bytes 1 n
  encode_value (int8 z) = to_le_bytes 1 (unsigned (2 ^ 7) z)
  encode_value (uint16 n) = to_le_bytes 2 n
  encode_value (int16 z) = to_le_bytes 2 (unsigned (2 ^ 15) z)
  encode_value (uint32 n) = to_le_bytes 4 n
  encode_value (int32 z) = to_le_bytes 4 (unsigned (2 ^ 31) z)
  encode_value (float32 n) = to_le_bytes 4 n
  encode_value (boolean true) = 1 ∷ []
  encode_value (boolean false) = 0 ∷ []
  encode_value (string s) = encode_string s
  encode_value (array vs) =
      to_le_bytes 4 (element_type vs) ++ (to_le_bytes 8 (count vs) ++ encode_items vs)
  encode_value (uint64 n) = to_le_bytes 8 n
  encode_value (int64 z) = to_le_bytes 8 (unsigned (2 ^ 63) z)
  encode_value (float64 n) = to_le_bytes 8 n

  pub encode_items : Items → Bytes
  encode_items nil = []
  encode_items (cons v vs) = encode_value v ++ encode_items vs

-- How deep arrays are nested.
unfoldable mutual
  pub depth : GgufValue → ℕ
  depth (array vs) = suc (depth_items vs)
  depth _ = 0

  pub depth_items : Items → ℕ
  depth_items nil = 0
  depth_items (cons v vs) = max (depth v) (depth_items vs)

abbrev pub IsSigned : ℕ → ℤ → Type 0
IsSigned half (pos n) = n < half
IsSigned half (negsuc n) = n < half

module _ (h : Host) where
  abbrev pub IsText : Bytes → Type 0
  IsText s = (is_utf8 s ≡ true) × (length s < 2 ^ 64) × (h.fits_bytes (length s) ≡ true)

  -- The numbers fit their types, the texts are UTF-8 that memory is given for, and an array's values have
  -- one type.
  unfoldable mutual
    pub IsWritable : GgufValue → Type 0
    IsWritable (uint8 n) = n < 2 ^ 8
    IsWritable (int8 z) = IsSigned (2 ^ 7) z
    IsWritable (uint16 n) = n < 2 ^ 16
    IsWritable (int16 z) = IsSigned (2 ^ 15) z
    IsWritable (uint32 n) = n < 2 ^ 32
    IsWritable (int32 z) = IsSigned (2 ^ 31) z
    IsWritable (float32 n) = n < 2 ^ 32
    IsWritable (boolean b) = Unit
    IsWritable (string s) = IsText s
    IsWritable (array vs) =
        (count vs < 2 ^ 64) × (h.fits_values (count vs) ≡ true) × AreWritable (element_type vs) vs
    IsWritable (uint64 n) = n < 2 ^ 64
    IsWritable (int64 z) = IsSigned (2 ^ 63) z
    IsWritable (float64 n) = n < 2 ^ 64

    pub AreWritable : ℕ → Items → Type 0
    AreWritable t nil = Unit
    AreWritable t (cons v vs) = (type_id v ≡ t) × IsWritable v × AreWritable t vs

pub read_exact-append :
    (n : ℕ) (s rest : Bytes) → length s ≡ n → read_exact n (s ++ rest) ≡ ok (s, rest)
read_exact-append n s rest e = rw (← e) (
    let enough : ltb (length (s ++ rest)) (length s) ≡ false =
      ground (arith, length-append s rest) in
    rw (enough, take-append s rest, drop-append s rest) refl)

pub read_le-append :
    (h : Host)
    → IsByteOrder h
    → (k n : ℕ) (rest : Bytes) → n < 256 ^ k
    → h.read_le k (to_le_bytes k n ++ rest) ≡ ok (n, rest)
read_le-append h order k n rest small =
    order.read_le_ok k (to_le_bytes k n ++ rest)
    ∙ >>=-ok (read_exact k) (λ s. pure (from_le_bytes s)) _ _ _
        (read_exact-append k (to_le_bytes k n) rest (length-to_le_bytes k n))
    ∙ ap (λ v. ok (v, rest)) (from_le_bytes-to_le_bytes k n small)

pub signed-unsigned : (half : ℕ) (z : ℤ) → IsSigned half z → signed half (unsigned half z) ≡ z
signed-unsigned half (pos n) small = ground arith
signed-unsigned half (negsuc n) small =
    let large : ltb (2 * half - 1 - n) half ≡ false = ground arith in
    rw large (ap negsuc (omega arith))

pub unsigned-lt : (half : ℕ) (z : ℤ) → IsSigned half z → unsigned half z < 2 * half
unsigned-lt half (pos n) small = omega arith
unsigned-lt half (negsuc n) small = omega arith

-- An array takes at least as many bytes as arrays are nested in it.
mutual
  unfolding depth encode_value

  pub depth-le : (v : GgufValue) → depth v ≤ length (encode_value v)
  depth-le (array vs) = omega (
    arith,
    depth_items-le vs,
    length-append (to_le_bytes 8 (count vs)) (encode_items vs),
    length-append (to_le_bytes 4 (element_type vs)) (to_le_bytes 8 (count vs) ++ encode_items vs),
  )
  depth-le _ = omega arith

  depth_items-le : (vs : Items) → depth_items vs ≤ length (encode_items vs)
  depth_items-le nil = omega arith
  depth_items-le (cons v vs) =
      omega (arith, depth-le v, depth_items-le vs, length-append (encode_value v) (encode_items vs))
