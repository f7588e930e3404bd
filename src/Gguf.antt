-- ===== src/Gguf.antt =====
-- crates/model-format/src/lib.rs: the data of a GGUF model and the conversions of its values. A `String`
-- that is read from a file is its UTF-8 bytes, a float its bit pattern.
pub mod Readers
pub mod Yields
pub mod Parser
pub mod Encoding
pub mod RoundTrip
pub mod File
pub mod Parsing
pub mod Tests
pub mod Settled
pub mod Finishing
pub mod Total
pub mod Size
pub mod Typing
pub mod Accepting
use Prim.Native.Char.{code}
use tensorgrid.Base.{
  and_then, drop, from_le_bytes, to_le_bytes, from_le_bytes-to_le_bytes, take-append, drop-append,
  length-to_le_bytes, Bytes, ℕ, ◌-◌, ◌*◌, ◌^◌, ◌≡◌, refl, String, Bool, Option, none, some, List,
  [], ◌∷◌, Key, ltb, u64, sum_u64, map, if◌then◌else◌, String-discrete, ℕ_discrete, true, false,
}
use tensorgrid.HashMap.{HashMap, get}

-- i8 to i64.
pub data ℤ : Type 0 where
  pos negsuc : ℕ → ℤ

-- The text of a literal: all that the program compares with is ASCII.
abbrev pub codes : String → Bytes
codes String.[] = []
codes (String.◌∷◌ c s) = code c ∷ codes s

mutual
  pub data GgufValue : Type 0 where
    uint8 uint16 uint32 uint64 : ℕ → GgufValue
    int8 int16 int32 int64 : ℤ → GgufValue
    float32 float64 : ℕ → GgufValue
    boolean : Bool → GgufValue
    string : Bytes → GgufValue
    array : Items → GgufValue

  -- `Vec<GgufValue>`
  pub data Items : Type 0 where
    nil : Items
    cons : GgufValue → Items → Items

pub record GgufTensor : Type 0 where
  pub name : Bytes
  pub shape : List ℕ
  pub dtype : String
  pub offset : ℕ

pub record GgufModel : Type 0 where
  pub version : ℕ
  pub metadata : HashMap Bytes GgufValue
  pub tensors : List GgufTensor

unfoldable pub Bytes-discrete : Discrete Bytes
Bytes-discrete = hlevel ℕ_discrete

instance abbrev pub bytes_key : Key Bytes
bytes_key = record { discrete = Bytes-discrete }

abbrev pub as_string : GgufValue → Option Bytes
as_string (string s) = some s
as_string _ = none

abbrev pub as_u64 : GgufValue → Option ℕ
as_u64 (uint8 v) = some v
as_u64 (uint16 v) = some v
as_u64 (uint32 v) = some v
as_u64 (uint64 v) = some v
as_u64 _ = none

abbrev pub as_i64 : GgufValue → Option ℤ
as_i64 (int8 v) = some v
as_i64 (int16 v) = some v
as_i64 (int32 v) = some v
as_i64 (int64 v) = some v
as_i64 _ = none

abbrev pub as_f32 : GgufValue → Option ℕ
as_f32 (float32 v) = some v
as_f32 _ = none

abbrev pub as_bool : GgufValue → Option Bool
as_bool (boolean b) = some b
as_bool _ = none

abbrev pub get_architecture : GgufModel → Option Bytes
get_architecture m = and_then as_string (get (codes "general.architecture") m.metadata)

abbrev pub get_parameter_count : GgufModel → Option ℕ
get_parameter_count m = and_then as_u64 (get (codes "llama.block_count") m.metadata)

abbrev pub get_context_length : GgufModel → Option ℕ
get_context_length m = and_then as_u64 (get (codes "llama.context_length") m.metadata)

unfoldable pub is : String → String → Bool
unfolding String-discrete
is s t = elim (String-discrete s t) [ yes e ↦ true | no e ↦ false ]

unfoldable pub dtype_bytes : String → Option ℕ
dtype_bytes t =
    if is t "f32"
    then some 4
    else if is t "f16"
    then some 2
    else if is t "q4_0"
    then some 1
    else if is t "q4_1"
    then some 1
    else if is t "q5_0"
    then some 1
    else if is t "q5_1"
    then some 1
    else if is t "q8_0"
    then some 1
    else if is t "q8_1"
    then some 1
    else if is t "i8"
    then some 1
    else if is t "i16"
    then some 2
    else if is t "i32"
    then some 4
    else none

abbrev pub or_four : Option ℕ → ℕ
or_four none = 4
or_four (some n) = n

-- `iter().product::<u64>()`
abbrev pub product_u64 : ℕ → List ℕ → ℕ
product_u64 acc [] = acc
product_u64 acc (x ∷ xs) = product_u64 (u64 (acc * x)) xs

abbrev pub tensor_size : GgufTensor → ℕ
tensor_size t = u64 (product_u64 1 t.shape * or_four (dtype_bytes t.dtype))

abbrev pub calculate_size : GgufModel → ℕ
calculate_size m = sum_u64 0 (map tensor_size m.tensors)
