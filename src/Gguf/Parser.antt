-- ===== src/Gguf/Parser.antt =====
-- crates/model-format/src/lib.rs: GgufParser, from the magic number to the tensors.
use tensorgrid.Base.{
  from_le_bytes, Bytes, ℕ, zero, suc, ◌^◌, String, not, Option, none, some, [], length, Result, ok,
  err, ◌==◌, if◌then◌else◌,
}
use tensorgrid.HashMap.{HashMap, insert}
use tensorgrid.Gguf.{
  GgufValue, Items, nil, cons, uint8, uint16, uint32, uint64, int8, int16, int32, int64, float32,
  float64, boolean, string, array, GgufTensor, GgufModel, bytes_key,
}
use tensorgrid.Gguf.Readers.{
  GgufError, invalid_magic, unfinished, unknown_value_type, unknown_type_id, Reader, ◌>>=◌, pure,
  fail, repeat, reserve, read_exact, Host, signed, from_utf8,
}

-- The arms of `dtype_from_id`.
abbrev pub dtype_name : ℕ → Option String
dtype_name n =
    if n == 0
    then some "f32"
    else if n == 1
    then some "f16"
    else if n == 2
    then some "q4_0"
    else if n == 3
    then some "q4_1"
    else if n == 6
    then some "q5_0"
    else if n == 7
    then some "q5_1"
    else if n == 8
    then some "q8_0"
    else if n == 9
    then some "q8_1"
    else if n == 10
    then some "i8"
    else if n == 11
    then some "i16"
    else if n == 12
    then some "i32"
    else none

abbrev pub dtype_from_id : ℕ → Reader String
dtype_from_id n = elim (dtype_name n) [ some t ↦ pure t | none ↦ fail (unknown_type_id n) ]

-- The arms of the match on a value's type.
pub data ValueType : Type 0 where
  uint8_type int8_type uint16_type int16_type uint32_type int32_type float32_type boolean_type
        string_type :
      ValueType
  array_type uint64_type int64_type float64_type : ValueType

abbrev pub value_type_from_id : ℕ → Option ValueType
value_type_from_id n =
    if n == 0
    then some uint8_type
    else if n == 1
    then some int8_type
    else if n == 2
    then some uint16_type
    else if n == 3
    then some int16_type
    else if n == 4
    then some uint32_type
    else if n == 5
    then some int32_type
    else if n == 6
    then some float32_type
    else if n == 7
    then some boolean_type
    else if n == 8
    then some string_type
    else if n == 9
    then some array_type
    else if n == 10
    then some uint64_type
    else if n == 11
    then some int64_type
    else if n == 12
    then some float64_type
    else none

abbrev pub gguf_magic : ℕ
gguf_magic = 0x46554747

abbrev pub read_magic : Reader ℕ
read_magic = do s ← read_exact 4; pure (from_le_bytes s)

-- The rest of the file is not looked at.
abbrev pub value_of : {A : Type 0} → Result GgufError (A × Bytes) → Result GgufError A
value_of (ok p) = ok p.0
value_of (err e) = err e

module _ (h : Host) where
  abbrev pub read_u8 : Reader ℕ
  read_u8 = h.read_le 1

  abbrev pub read_u16 : Reader ℕ
  read_u16 = h.read_le 2

  abbrev pub read_u32 : Reader ℕ
  read_u32 = h.read_le 4

  abbrev pub read_u64 : Reader ℕ
  read_u64 = h.read_le 8

  abbrev pub read_string : Reader Bytes
  read_string = do n ← read_u64; _ ← reserve (h.fits_bytes n); s ← read_exact n; from_utf8 s

  -- The loop of `read_array`.
  unfoldable pub read_items : ℕ → Reader GgufValue → Reader Items
  read_items zero r = pure nil
  read_items (suc n) r = do v ← r; vs ← read_items n r; pure (cons v vs)

  abbrev pub read_array : (ℕ → Reader GgufValue) → Reader Items
  read_array read_value = do
    element_type ← read_u32
    n ← read_u64
    _ ← reserve (h.fits_values n)
    read_items n (read_value element_type)

  -- A value of a type, given the reader of the elements of an array.
  abbrev pub read_as : (ℕ → Reader GgufValue) → ValueType → Reader GgufValue
  read_as read_element uint8_type = do n ← read_u8; pure (uint8 n)
  read_as read_element int8_type = do n ← read_u8; pure (int8 (signed (2 ^ 7) n))
  read_as read_element uint16_type = do n ← read_u16; pure (uint16 n)
  read_as read_element int16_type = do n ← read_u16; pure (int16 (signed (2 ^ 15) n))
  read_as read_element uint32_type = do n ← read_u32; pure (uint32 n)
  read_as read_element int32_type = do n ← read_u32; pure (int32 (signed (2 ^ 31) n))
  read_as read_element float32_type = do n ← read_u32; pure (float32 n)
  read_as read_element boolean_type = do n ← read_u8; pure (boolean (not (n == 0)))
  read_as read_element string_type = do n ← read_string; pure (string n)
  read_as read_element array_type = do vs ← read_array read_element; pure (array vs)
  read_as read_element uint64_type = do n ← read_u64; pure (uint64 n)
  read_as read_element int64_type = do n ← read_u64; pure (int64 (signed (2 ^ 63) n))
  read_as read_element float64_type = do n ← read_u64; pure (float64 n)

  -- The fuel bounds the nesting of arrays.
  unfoldable pub read_value : ℕ → ℕ → Reader GgufValue
  read_value zero ty = fail unfinished
  read_value (suc fuel) ty = elim (value_type_from_id ty) [
    | none ↦ fail (unknown_value_type ty)
    | some t ↦ read_as (read_value fuel) t
  ]

  abbrev pub read_kv_pair : ℕ → Reader (Bytes × GgufValue)
  read_kv_pair fuel = do
    key ← read_string
    value_type ← read_u32
    value ← read_value fuel value_type
    pure (key, value)

  abbrev pub read_tensor_info : Reader GgufTensor
  read_tensor_info = do
    name ← read_string
    n_dims ← read_u32
    _ ← reserve (h.fits_dims n_dims)
    shape ← repeat n_dims read_u64
    type_id ← read_u32
    offset ← read_u64
    dtype ← dtype_from_id type_id
    pure (record { name = name; shape = shape; dtype = dtype; offset = offset })

  -- The metadata pairs, each inserted as it is read.
  unfoldable pub read_metadata : ℕ → ℕ → HashMap Bytes GgufValue → Reader (HashMap Bytes GgufValue)
  read_metadata fuel zero m = pure m
  read_metadata fuel (suc n) m = do p ← read_kv_pair fuel; read_metadata fuel n (insert p.0 p.1 m)

  abbrev pub read_model : ℕ → Reader GgufModel
  read_model fuel = do
    magic ← read_magic
    version ← if magic == gguf_magic then read_u32 else fail invalid_magic
    tensor_count ← read_u64
    metadata_kv_count ← read_u64
    metadata ← read_metadata fuel metadata_kv_count []
    _ ← reserve (h.fits_tensors tensor_count)
    tensors ← repeat tensor_count read_tensor_info
    pure (record { version = version; metadata = metadata; tensors = tensors })

  -- The contents of the file: a file holds no deeper nesting than it has bytes.
  abbrev pub parse : Bytes → Result GgufError GgufModel
  parse file = value_of (read_model (suc (length file)) file)
