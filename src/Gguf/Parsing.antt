-- ===== src/Gguf/Parsing.antt =====
-- crates/model-format/src/lib.rs: GgufParser::parse reads back the file of a model.
use mathlib.Core.List.{append_assoc, append-nil}
use tensorgrid.Base.{
  from_le_bytes, to_le_bytes, Bytes, none, some, ℕ, suc, ◌^◌, ◌≡◌, ◌<◌, refl, sym, ap, subst, ◌∙◌,
  List, [], ◌∷◌, ◌++◌, length, ok, arith, length-append, All,
}
use tensorgrid.HashMap.{HashMap, insert}
use tensorgrid.HashMap.Unique.{IsMap, insert-snoc}
use tensorgrid.Gguf.{GgufValue, GgufTensor, GgufModel, bytes_key}
use tensorgrid.Gguf.Readers.{
  unknown_type_id, fail, read_exact, Host, IsByteOrder, Reader, ◌>>=◌, pure, repeat,
}
use tensorgrid.Gguf.Parser.{
  dtype_name, value_of, dtype_from_id, gguf_magic, read_u32, read_u64, read_string, read_value,
  read_kv_pair, read_tensor_info, read_metadata, read_magic, read_model, parse,
}
use tensorgrid.Gguf.Encoding.{
  read_exact-append, depth-le, type_id, encode_string, encode_value, depth,
}
use tensorgrid.Gguf.RoundTrip.{
  Reads, Reads-bind, Reads-map, Reads-reserve, read_le-Reads, read_string-Reads, read_value-Reads,
  type_id-lt,
}
use tensorgrid.Gguf.File.{
  concat, encode_pair, encode_tensor, encode_model, dtype_id, dtype_id-lt, IsPair, IsTensor,
  IsModel,
}

module _ (h : Host) (order : IsByteOrder h) where
  read_kv_pair-Reads :
      (fuel : ℕ) (p : Bytes × GgufValue)
      → depth p.1 < fuel
      → IsPair h p
      → Reads (read_kv_pair h fuel) (encode_pair p) p
  read_kv_pair-Reads fuel p deep w =
      Reads-bind (read_string h) (encode_string p.0) p.0 _ _ p (read_string-Reads h order p.0 w.0) (
        Reads-bind (read_u32 h) (to_le_bytes 4 (type_id p.1)) (type_id p.1) _ _ p
          (read_le-Reads h order 4 (type_id p.1) (type_id-lt p.1))
          (Reads-map (read_value h fuel (type_id p.1)) (encode_value p.1) p.1 (λ v. (p.0, v))
            (read_value-Reads h order fuel p.1 deep w.1)))

  -- So many values, one after the other.
  repeat-Reads :
      {A : Type 0} (r : Reader A) (f : A → Bytes) (xs : List A)
      → All (λ x. Reads r (f x) x) xs
      → Reads (repeat (length xs) r) (concat f xs) xs
  unfolding repeat Reads
  repeat-Reads r f [] w = λ rest. refl
  repeat-Reads r f (x ∷ xs) w =
      Reads-bind r (f x) x _ (concat f xs) (x ∷ xs) w.0
        (Reads-map (repeat (length xs) r) (concat f xs) xs (◌∷◌ x) (repeat-Reads r f xs w.1))

  dims-Reads :
      (ds : List ℕ)
      → All (λ d. d < 2 ^ 64) ds
      → All (λ d. Reads (read_u64 h) (to_le_bytes 8 d) d) ds
  dims-Reads [] w = tt
  dims-Reads (d ∷ ds) w = (read_le-Reads h order 8 d w.0, dims-Reads ds w.1)

  -- The end of a tensor's entry: its offset, and the name of its type.
  read_end-Reads :
      (t : GgufTensor)
      → dtype_name (dtype_id t.dtype) ≡ some t.dtype
      → t.offset < 2 ^ 64
      → Reads
          (do
            offset ← read_u64 h
            dtype ← dtype_from_id (dtype_id t.dtype)
            pure (record { name = t.name; shape = t.shape; dtype = dtype; offset = offset }))
          (to_le_bytes 8 t.offset)
          t
  read_end-Reads t known small =
      subst
        (λ o.
          Reads
            (do
              offset ← read_u64 h
              dtype ← elim o [ some d ↦ pure d | none ↦ fail (unknown_type_id (dtype_id t.dtype)) ]
              pure (record { name = t.name; shape = t.shape; dtype = dtype; offset = offset }))
            (to_le_bytes 8 t.offset) t)
        (sym known)
        (Reads-map (read_u64 h) (to_le_bytes 8 t.offset) t.offset
          (λ o. record { name = t.name; shape = t.shape; dtype = t.dtype; offset = o })
          (read_le-Reads h order 8 t.offset small))

  read_tensor_info-Reads :
      (t : GgufTensor) → IsTensor h t → Reads (read_tensor_info h) (encode_tensor t) t
  read_tensor_info-Reads t (name, short, fits, dims, known, offset) =
      Reads-bind (read_string h) (encode_string t.name) t.name _ _ t
        (read_string-Reads h order t.name name)
        (Reads-bind (read_u32 h) (to_le_bytes 4 (length t.shape)) (length t.shape) _ _ t
          (read_le-Reads h order 4 (length t.shape) short)
          (Reads-reserve (h.fits_dims (length t.shape)) _ _ t fits (
            Reads-bind (repeat (length t.shape) (read_u64 h)) (concat (to_le_bytes 8) t.shape)
              t.shape _ _ t
              (repeat-Reads (read_u64 h) (to_le_bytes 8) t.shape (dims-Reads t.shape dims))
              (Reads-bind (read_u32 h) (to_le_bytes 4 (dtype_id t.dtype)) (dtype_id t.dtype) _ _ t
                (read_le-Reads h order 4 (dtype_id t.dtype) (dtype_id-lt t.dtype))
                (read_end-Reads t known offset)))))

  tensors-Reads :
      (ts : List GgufTensor)
      → All (IsTensor h) ts
      → All (λ t. Reads (read_tensor_info h) (encode_tensor t) t) ts
  tensors-Reads [] w = tt
  tensors-Reads (t ∷ ts) w = (read_tensor_info-Reads t w.0, tensors-Reads ts w.1)

  read_metadata-Reads :
      (fuel : ℕ) (m kvs : HashMap Bytes GgufValue)
      → IsMap (m ++ kvs)
      → All (λ p. depth p.1 < fuel) kvs
      → All (IsPair h) kvs
      → Reads (read_metadata h fuel (length kvs) m) (concat encode_pair kvs) (m ++ kvs)
  unfolding Reads read_metadata
  read_metadata-Reads fuel m [] u deep w = λ rest. ap (λ r. ok (r, rest)) (sym (append-nil m))
  read_metadata-Reads fuel m ((k, v) ∷ kvs) u deep w =
      let e : insert k v m ++ kvs ≡ m ++ (k, v) ∷ kvs =
        ap (λ x. x ++ kvs) (insert-snoc k v m kvs u) ∙ append_assoc m ((k, v) ∷ []) kvs in
      Reads-bind (read_kv_pair h fuel) (encode_pair (k, v)) (k, v) _ (concat encode_pair kvs)
        (m ++ (k, v) ∷ kvs) (read_kv_pair-Reads fuel (k, v) deep.0 w.0)
        (subst (Reads (read_metadata h fuel (length kvs) (insert k v m)) (concat encode_pair kvs)) e
          (read_metadata-Reads fuel (insert k v m) kvs (subst IsMap (sym e) u) deep.1 w.1))

  read_magic-Reads : Reads read_magic (to_le_bytes 4 gguf_magic) gguf_magic
  unfolding Reads
  read_magic-Reads =
      Reads-map (read_exact 4) (to_le_bytes 4 gguf_magic) (to_le_bytes 4 gguf_magic) from_le_bytes
        (λ rest. read_exact-append 4 (to_le_bytes 4 gguf_magic) rest refl)

  read_model-Reads :
      (fuel : ℕ) (m : GgufModel)
      → All (λ p. depth p.1 < fuel) m.metadata
      → IsModel h m
      → Reads (read_model h fuel) (encode_model m) m
  read_model-Reads fuel m deep w =
      Reads-bind read_magic (to_le_bytes 4 gguf_magic) gguf_magic _ _ m read_magic-Reads (
        Reads-bind (read_u32 h) (to_le_bytes 4 m.version) m.version _ _ m
          (read_le-Reads h order 4 m.version w.version_ok)
          (Reads-bind (read_u64 h) (to_le_bytes 8 (length m.tensors)) (length m.tensors) _ _ m
            (read_le-Reads h order 8 (length m.tensors) w.tensor_count_ok)
            (Reads-bind (read_u64 h) (to_le_bytes 8 (length m.metadata)) (length m.metadata) _ _ m
              (read_le-Reads h order 8 (length m.metadata) w.metadata_count_ok)
              (Reads-bind (read_metadata h fuel (length m.metadata) [])
                (concat encode_pair m.metadata) m.metadata _ _ m
                (read_metadata-Reads fuel [] m.metadata w.metadata_map deep w.metadata_ok)
                (Reads-reserve (h.fits_tensors (length m.tensors)) _ _ m w.tensors_fit (
                  Reads-map (repeat (length m.tensors) (read_tensor_info h))
                    (concat encode_tensor m.tensors) m.tensors
                    (λ ts. record { version = m.version; metadata = m.metadata; tensors = ts })
                    (repeat-Reads (read_tensor_info h) encode_tensor m.tensors
                      (tensors-Reads m.tensors w.tensors_ok))))))))

metadata_depth :
    (kvs : HashMap Bytes GgufValue) (n : ℕ)
    → length (concat encode_pair kvs) < n
    → All (λ p. depth p.1 < n) kvs
metadata_depth [] n h = tt
metadata_depth ((k, v) ∷ kvs) n h =
    let le = depth-le v in
    let split = length-append (encode_pair (k, v)) (concat encode_pair kvs) in
    let own = length-append (encode_string k) (to_le_bytes 4 (type_id v) ++ encode_value v) in
    (omega (arith, le, split, own), metadata_depth kvs n (omega (arith, split)))

-- A file that holds a model is parsed as that model, whatever stands after it: the model's numbers fit
-- their types, its texts are UTF-8, its metadata has each key once, its arrays have values of one type,
-- its type names are the parser's, and memory is given for its vectors.
pub parse-encode_model :
    (h : Host)
    → IsByteOrder h
    → (m : GgufModel) (rest : Bytes) → IsModel h m
    → parse h (encode_model m ++ rest) ≡ ok m
unfolding Reads
parse-encode_model h order m rest w = ap value_of (
    read_model-Reads h order (suc (length (encode_model m ++ rest))) m
      (metadata_depth m.metadata (suc (length (encode_model m ++ rest))) (
        omega (
          arith,
          length-append (concat encode_pair m.metadata) (concat encode_tensor m.tensors),
          length-append (concat encode_pair m.metadata ++ concat encode_tensor m.tensors) rest,
        )))
      w rest)
