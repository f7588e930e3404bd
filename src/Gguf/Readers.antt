-- ===== src/Gguf/Readers.antt =====
-- crates/model-format/src/lib.rs: the reader. A reader takes the bytes that are left of the file and gives
-- a value and the bytes after it. The byteorder crate and the allocator are parameters.
use tensorgrid.Base.{
  drop, from_le_bytes, Bytes, ℕ, zero, suc, ◌-◌, ◌*◌, ◌≡◌, refl, Bool, true, false, ◌&&◌, Option,
  none, some, List, [], ◌∷◌, length, take, Result, ok, err, ltb, leb, ◌==◌, if◌then◌else◌,
}
use tensorgrid.Gguf.{ℤ, pos, negsuc, bytes_key}

-- `unfinished` is the model's own: the fuel is spent. It never happens (Gguf/Termination.antt).
pub data GgufError : Type 0 where
  unexpected_eof invalid_magic invalid_utf8 out_of_memory unfinished : GgufError
  unknown_value_type unknown_type_id : ℕ → GgufError

abbrev pub Reader : Type 0 → Type 0
Reader A = Bytes → Result GgufError (A × Bytes)

infixl 5 ◌>>=◌
abbrev pub ◌>>=◌ : {A B : Type 0} → Reader A → (A → Reader B) → Reader B
(r >>= f) bs = elim (r bs) [ ok p ↦ f p.0 p.1 | err e ↦ err e ]

abbrev pub pure : {A : Type 0} → A → Reader A
pure a bs = ok (a, bs)

abbrev pub fail : {A : Type 0} → GgufError → Reader A
fail e bs = err e

pub >>=-ok :
    {A B : Type 0} (r : Reader A) (f : A → Reader B) (bs : Bytes) (a : A) (rest : Bytes)
    → r bs ≡ ok (a, rest)
    → (r >>= f) bs ≡ f a rest
>>=-ok r f bs a rest e = rw (◌>>=◌, e) refl

-- `for _ in 0..n { v.push(read()?) }`
unfoldable pub repeat : {A : Type 0} → ℕ → Reader A → Reader (List A)
repeat zero r = pure []
repeat (suc n) r = do x ← r; xs ← repeat n r; pure (x ∷ xs)

-- `vec![0u8; n]` or `Vec::with_capacity(n)`: a program that gets no memory panics or aborts.
abbrev pub reserve : Bool → Reader Unit
reserve true bs = ok (tt, bs)
reserve false bs = err out_of_memory

-- `read_exact` into a buffer of n bytes.
abbrev pub read_exact : ℕ → Reader Bytes
read_exact n bs = if ltb (length bs) n then err unexpected_eof else ok (take n bs, drop n bs)

-- What the reader uses from outside: byteorder's read of an unsigned little-endian number of some bytes,
-- and whether a vector of so many bytes, values, dimensions or tensors gets its memory.
pub record Host : Type 0 where
  pub read_le : ℕ → Reader ℕ
  pub fits_bytes : ℕ → Bool
  pub fits_values : ℕ → Bool
  pub fits_dims : ℕ → Bool
  pub fits_tensors : ℕ → Bool

-- byteorder's documentation: `read_exact` into a buffer of the number's size, then its value.
pub record IsByteOrder (h : Host) : Type 0 where
  pub read_le_ok :
      (n : ℕ) (bs : Bytes) → h.read_le n bs ≡ (do s ← read_exact n; pure (from_le_bytes s)) bs

-- The signed number in two's complement, where the type's signed numbers are below `half`.
abbrev pub signed : ℕ → ℕ → ℤ
signed half n = if ltb n half then pos n else negsuc (2 * half - 1 - n)

-- The continuation bytes that a lead byte asks for, and the bounds of the first of them.
abbrev pub utf8_lead : ℕ → Option (ℕ × ℕ × ℕ)
utf8_lead b =
    if ltb b 128
    then some (0, 128, 191)
    else if ltb b 194
    then none
    else if ltb b 224
    then some (1, 128, 191)
    else if b == 224
    then some (2, 160, 191)
    else if b == 237
    then some (2, 128, 159)
    else if ltb b 240
    then some (2, 128, 191)
    else if b == 240
    then some (3, 144, 191)
    else if ltb b 244
    then some (3, 128, 191)
    else if b == 244
    then some (3, 128, 143)
    else none

-- Bytes from inside a character, of which so many bytes are to come.
unfoldable pub utf8_rest : ℕ → ℕ → ℕ → Bytes → Bool
utf8_rest zero lo hi [] = true
utf8_rest (suc n) lo hi [] = false
utf8_rest zero lo hi (b ∷ bs) = elim (utf8_lead b) [
  | none ↦ false
  | some (n, from, to) ↦ utf8_rest n from to bs
]
utf8_rest (suc n) lo hi (b ∷ bs) = leb lo b && leb b hi && utf8_rest n 128 191 bs

abbrev pub is_utf8 : Bytes → Bool
is_utf8 = utf8_rest 0 128 191

-- `String::from_utf8`
abbrev pub from_utf8 : Bytes → Reader Bytes
from_utf8 s = if is_utf8 s then pure s else fail invalid_utf8
