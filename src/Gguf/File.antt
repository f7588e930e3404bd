-- ===== src/Gguf/File.antt =====
-- A whole GGUF file: the bytes that stand for a model, and which models have such bytes.
use tensorgrid.Base.{
  to_le_bytes, Bytes, ℕ, ◌^◌, ◌≡◌, ◌<◌, String, true, List, [], ◌∷◌, ◌++◌, length, if◌then◌else◌,
  arith, All, some,
}
use tensorgrid.HashMap.Unique.{IsMap}
use tensorgrid.Gguf.{is, GgufValue, GgufTensor, GgufModel, bytes_key}
use tensorgrid.Gguf.Readers.{Host}
use tensorgrid.Gguf.Parser.{dtype_name, gguf_magic}
use tensorgrid.Gguf.Encoding.{type_id, encode_string, encode_value, IsText, IsWritable}

abbrev pub encode_pair : Bytes × GgufValue → Bytes
encode_pair p = encode_string p.0 ++ (to_le_bytes 4 (type_id p.1) ++ encode_value p.1)

abbrev pub concat {ℓ} : {A : Type ℓ} → (A → Bytes) → List A → Bytes
concat f [] = []
concat f (x ∷ xs) = f x ++ concat f xs

-- An identifier of a type's name; 4 is none.
unfoldable pub dtype_id : String → ℕ
dtype_id t =
    if is t "f32"
    then 0
    else if is t "f16"
    then 1
    else if is t "q4_0"
    then 2
    else if is t "q4_1"
    then 3
    else if is t "q5_0"
    then 6
    else if is t "q5_1"
    then 7
    else if is t "q8_0"
    then 8
    else if is t "q8_1"
    then 9
    else if is t "i8"
    then 10
    else if is t "i16"
    then 11
    else if is t "i32"
    then 12
    else 4

abbrev pub encode_tensor : GgufTensor → Bytes
encode_tensor t =
    encode_string t.name
    ++ (to_le_bytes 4 (length t.shape)
        ++ (concat (to_le_bytes 8) t.shape
            ++ (to_le_bytes 4 (dtype_id t.dtype) ++ to_le_bytes 8 t.offset)))

abbrev pub encode_model : GgufModel → Bytes
encode_model m =
    to_le_bytes 4 gguf_magic
    ++ (to_le_bytes 4 m.version
        ++ (to_le_bytes 8 (length m.tensors)
            ++ (to_le_bytes 8 (length m.metadata)
                ++ (concat encode_pair m.metadata ++ concat encode_tensor m.tensors))))

pub dtype_id-lt : (t : String) → dtype_id t < 2 ^ 32
unfolding dtype_id
dtype_id-lt t = ground arith

module _ (h : Host) where
  abbrev pub IsPair : Bytes × GgufValue → Type 0
  IsPair p = IsText h p.0 × IsWritable h p.1

  abbrev pub IsTensor : GgufTensor → Type 0
  IsTensor t =
      IsText h t.name
      × (length t.shape < 2 ^ 32)
      × (h.fits_dims (length t.shape) ≡ true)
      × All (λ d. d < 2 ^ 64) t.shape
      × (dtype_name (dtype_id t.dtype) ≡ some t.dtype)
      × (t.offset < 2 ^ 64)

  -- A model that a file can hold and that there is memory for.
  pub record IsModel (m : GgufModel) : Type 0 where
    pub version_ok : m.version < 2 ^ 32
    pub metadata_count_ok : length m.metadata < 2 ^ 64
    pub tensor_count_ok : length m.tensors < 2 ^ 64
    pub tensors_fit : h.fits_tensors (length m.tensors) ≡ true
    pub metadata_map : IsMap m.metadata
    pub metadata_ok : All IsPair m.metadata
    pub tensors_ok : All IsTensor m.tensors
