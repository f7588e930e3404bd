-- ===== src/Gguf/Total.antt =====
-- crates/model-format/src/lib.rs: GgufParser::parse finishes on every file.
use tensorgrid.Base.{
  from_le_bytes, Bytes, ℕ, zero, suc, ◌≡◌, ◌≢◌, ◌≤◌, ◌<◌, ◌^◌, ap, [], length, Result, ok, err,
  if◌then◌else◌, arith, All, ◌==◌,
}
use tensorgrid.HashMap.{HashMap, insert}
use tensorgrid.Gguf.{GgufValue, bytes_key}
use tensorgrid.Gguf.Readers.{
  GgufError, unfinished, invalid_magic, Host, IsByteOrder, fail, read_exact, repeat,
}
use tensorgrid.Gguf.Parser.{
  dtype_from_id, gguf_magic, read_u32, read_u64, read_value, read_kv_pair, read_tensor_info,
  read_metadata, read_magic, read_model, value_of, parse,
}
use tensorgrid.Gguf.File.{IsPair, IsTensor}
use tensorgrid.Gguf.Yields.{
  IsByte, Yields, Yields-le, read_exact-Yields, read_le-Yields, repeat-Yields,
}
use tensorgrid.Gguf.Typing.{IsOf, read_value-Yields}
use tensorgrid.Gguf.Settled.{
  Settled, Settled-bind, Settled-pure, Settled-fail, Settled-if, repeat-Settled, read_exact-Settled,
  read_le-Settled,
}
use tensorgrid.Gguf.Accepting.{
  IsDtype, IsMetadata, dtype_from_id-Yields, read_kv_pair-Yields, read_metadata_all-Yields,
  read_tensor_info-Yields, read_magic-Yields, version-Yields,
}
use tensorgrid.Gguf.Finishing.{
  dtype_from_id-Settled, number_then, reserve_then, string_then, read_value-Settled,
}

module _ (h : Host) (order : IsByteOrder h) where
  u64-Yields : Yields (λ d. d < 2 ^ 64) 0 (read_u64 h)
  u64-Yields = Yields-le (λ d. d < 2 ^ 64) 0 8 (read_u64 h) (omega arith) (read_le-Yields h order 8)

  read_tensor_info-Settled : (n : ℕ) → Settled n (read_tensor_info h) (read_tensor_info h)
  read_tensor_info-Settled n = string_then h order n _ _ (λ name.
      number_then h order n 4 _ _ (λ dims. reserve_then h order n (h.fits_dims dims) _ _ (λ u.
        Settled-bind (λ ds. (length ds ≡ dims) × All (λ d. d < 2 ^ 64) ds) n n 0 (omega arith)
          (repeat dims (read_u64 h)) (repeat dims (read_u64 h)) _ _
          (repeat-Yields (λ d. d < 2 ^ 64) dims (read_u64 h) u64-Yields)
          (repeat-Settled (λ d. d < 2 ^ 64) n dims (read_u64 h) u64-Yields
            (read_le-Settled h order n 8))
          (λ shape. number_then h order n 4 _ _ (λ id. number_then h order n 8 _ _ (λ offset.
            Settled-bind IsDtype n n 0 (omega arith) (dtype_from_id id) (dtype_from_id id) _ _
              (dtype_from_id-Yields id) (dtype_from_id-Settled n id)
              (λ dtype. Settled-pure n _)))))))

  read_kv_pair-Settled :
      (n fuel fuel' : ℕ)
      → n ≤ fuel
      → n ≤ fuel'
      → Settled n (read_kv_pair h fuel) (read_kv_pair h fuel')
  read_kv_pair-Settled n fuel fuel' more more' = string_then h order n _ _ (λ k.
      number_then h order n 4 _ _ (λ ty.
        Settled-bind (IsOf h ty) n n 0 (omega arith) (read_value h fuel ty) (read_value h fuel' ty)
          _ _ (read_value-Yields h order fuel ty)
          (read_value-Settled h order n fuel fuel' ty more more') (λ v. Settled-pure n (k, v))))

  read_metadata-Settled :
      (n fuel fuel' k : ℕ) (m : HashMap Bytes GgufValue)
      → n ≤ fuel
      → n ≤ fuel'
      → Settled n (read_metadata h fuel k m) (read_metadata h fuel' k m)
  unfolding read_metadata
  read_metadata-Settled n fuel fuel' zero m more more' = Settled-pure n m
  read_metadata-Settled n fuel fuel' (suc k) m more more' =
      Settled-bind (IsPair h) n n 0 (omega arith) (read_kv_pair h fuel) (read_kv_pair h fuel') _ _
        (read_kv_pair-Yields h order fuel) (read_kv_pair-Settled n fuel fuel' more more')
        (λ p. read_metadata-Settled n fuel fuel' k (insert p.0 p.1 m) more more')

  magic-Settled : (n : ℕ) → Settled n read_magic read_magic
  magic-Settled n =
      Settled-bind (λ s. (length s ≡ 4) × All IsByte s) n n 4 (omega arith) (read_exact 4)
        (read_exact 4) _ _ (read_exact-Yields 4) (read_exact-Settled n 4)
        (λ s. Settled-pure n (from_le_bytes s))

  version-Settled :
      (n magic : ℕ)
      → let r = if magic == gguf_magic then read_u32 h else fail invalid_magic in Settled n r r
  version-Settled n magic =
      Settled-if n (magic == gguf_magic) (read_u32 h) (fail invalid_magic)
        (read_le-Settled h order n 4) (Settled-fail ℕ n invalid_magic (λ e. absurd (ground arith)))

  read_model-Settled :
      (n fuel fuel' : ℕ) → n ≤ fuel → n ≤ fuel' → Settled n (read_model h fuel) (read_model h fuel')
  read_model-Settled n fuel fuel' more more' =
      Settled-bind (λ m. Unit) n n 4 (omega arith) read_magic read_magic _ _
        (read_magic-Yields h order) (magic-Settled n)
        (λ magic.
          Settled-bind (λ v. v < 2 ^ 32) n n 0 (omega arith) _ _ _ _
            (version-Yields h order (magic == gguf_magic)) (version-Settled n magic)
            (λ version. number_then h order n 8 _ _ (λ k. number_then h order n 8 _ _ (λ pairs.
              Settled-bind (IsMetadata h order pairs) n n 0 (omega arith)
                (read_metadata h fuel pairs []) (read_metadata h fuel' pairs []) _ _
                (read_metadata_all-Yields h order fuel pairs)
                (read_metadata-Settled n fuel fuel' pairs [] more more')
                (λ m. reserve_then h order n (h.fits_tensors k) _ _ (λ u.
                  Settled-bind (λ ts. (length ts ≡ k) × All (IsTensor h) ts) n n 0 (omega arith)
                    (repeat k (read_tensor_info h)) (repeat k (read_tensor_info h)) _ _
                    (repeat-Yields (IsTensor h) k (read_tensor_info h)
                      (read_tensor_info-Yields h order))
                    (repeat-Settled (IsTensor h) n k (read_tensor_info h)
                      (read_tensor_info-Yields h order) (read_tensor_info-Settled n))
                    (λ ts. Settled-pure n _)))))))

value_of-finished :
    {A : Type 0} (x : Result GgufError (A × Bytes))
    → x ≢ err unfinished
    → value_of x ≢ err unfinished
value_of-finished (ok p) clean e = absurd (ground arith)
value_of-finished (err d) clean e =
    clean (ap (λ r. elim r [ ok a ↦ err unfinished | err c ↦ err c ]) e)

-- The parser finishes on every file of bytes: it never runs out of the fuel it is given, and any larger
-- fuel gives the same result.
pub parse_finishes :
    (h : Host)
    → IsByteOrder h
    → (file : Bytes) (fuel : ℕ) → All IsByte file
    → length file < fuel
    → (parse h file ≡ value_of (read_model h fuel file)) × (parse h file ≢ err unfinished)
unfolding Settled
parse_finishes h order file fuel bytes enough =
    let n = suc (length file) in
    let both = read_model-Settled h order n n fuel (omega arith) enough file bytes (omega arith) in
    (ap value_of both.0, value_of-finished (read_model h n file) both.1)
