-- ===== src/Gguf/Accepting.antt =====
-- crates/model-format/src/lib.rs: a file that the parser accepts holds a well-formed model.
use tensorgrid.Base.{
  from_le_bytes, Bytes, none, some, Option, String-discrete, ℕ, zero, suc, ◌+◌, ◌^◌, ◌≡◌, ◌≤◌, ◌<◌,
  refl, sym, ap, subst, String, Bool, true, false, [], length, Result, ok, err, if◌then◌else◌,
  arith, All, ◌==◌,
}
use tensorgrid.HashMap.{HashMap, insert}
use tensorgrid.HashMap.Unique.{IsMap, insert-IsMap}
use tensorgrid.HashMap.Lists.{insert-All, length-insert-le}
use tensorgrid.Gguf.{is, GgufValue, GgufModel, bytes_key}
use tensorgrid.Gguf.Readers.{
  unknown_type_id, invalid_magic, GgufError, Host, IsByteOrder, pure, fail, read_exact, reserve,
  repeat,
}
use tensorgrid.Gguf.Parser.{
  dtype_name, dtype_from_id, gguf_magic, read_u32, read_u64, read_string, read_value, read_kv_pair,
  read_tensor_info, read_metadata, read_magic, read_model, value_of, parse,
}
use tensorgrid.Gguf.Encoding.{IsText}
use tensorgrid.Gguf.File.{dtype_id, IsPair, IsTensor, IsModel}
use tensorgrid.Gguf.Yields.{
  IsByte, Outcome, Yields, Yields-bind, Yields-pure, Yields-fail, Yields-le, read_exact-Yields,
  read_le-Yields, reserve-Yields, repeat-Yields,
}
use tensorgrid.Gguf.Typing.{IsOf, read_string-Yields, read_value-Yields}

-- A type's name that the parser knows.
abbrev pub IsDtype : String → Type 0
IsDtype t = dtype_name (dtype_id t) ≡ some t

Known : Option String → Type 0
Known none = Unit
Known (some t) = IsDtype t

if-Known : (b : Bool) (o p : Option String) → Known o → Known p → Known (if b then o else p)
if-Known true o p ko kp = ko
if-Known false o p ko kp = kp

dtype_name-Known : (n : ℕ) → Known (dtype_name n)
unfolding Known dtype_id is String-discrete
dtype_name-Known n = if-Known (n == 0) (some "f32") _ refl (
    if-Known (n == 1) (some "f16") _ refl (
      if-Known (n == 2) (some "q4_0") _ refl (
        if-Known (n == 3) (some "q4_1") _ refl (
          if-Known (n == 6) (some "q5_0") _ refl (
            if-Known (n == 7) (some "q5_1") _ refl (
              if-Known (n == 8) (some "q8_0") _ refl (
                if-Known (n == 9) (some "q8_1") _ refl (
                  if-Known (n == 10) (some "i8") _ refl (
                    if-Known (n == 11) (some "i16") _ refl
                      (if-Known (n == 12) (some "i32") _ refl (tt)))))))))))

named-Yields :
    (n : ℕ) (o : Option String)
    → Known o
    → Yields IsDtype 0 (elim o [ some t ↦ pure t | none ↦ fail (unknown_type_id n) ])
unfolding Known
named-Yields n none k = Yields-fail IsDtype 0 (unknown_type_id n)
named-Yields n (some t) k = Yields-pure IsDtype t k

pub dtype_from_id-Yields : (n : ℕ) → Yields IsDtype 0 (dtype_from_id n)
dtype_from_id-Yields n = named-Yields n (dtype_name n) (dtype_name-Known n)

module _ (h : Host) (order : IsByteOrder h) where
  pub read_kv_pair-Yields : (fuel : ℕ) → Yields (IsPair h) 0 (read_kv_pair h fuel)
  read_kv_pair-Yields fuel = Yields-le (IsPair h) 0 12 _ (omega arith) (
      Yields-bind (IsText h) (IsPair h) 8 4 (read_string h) _ (read_string-Yields h order)
        (λ k text.
          Yields-bind (λ n. n < 2 ^ 32) (IsPair h) 4 0 (read_u32 h) _ (read_le-Yields h order 4)
            (λ ty small.
              Yields-bind (IsOf h ty) (IsPair h) 0 0 (read_value h fuel ty) _
                (read_value-Yields h order fuel ty)
                (λ v w. Yields-pure (IsPair h) (k, v) (text, w.1)))))

  -- The metadata so far: each key once, each entry well formed, and so many entries at most.
  abbrev pub IsMetadata : ℕ → HashMap Bytes GgufValue → Type 0
  IsMetadata n m = IsMap m × All (IsPair h) m × (length m ≤ n)

  pub read_metadata-Yields :
      (fuel n done : ℕ) (m : HashMap Bytes GgufValue)
      → IsMetadata done m
      → Yields (IsMetadata (done + n)) 0 (read_metadata h fuel n m)
  unfolding read_metadata
  read_metadata-Yields fuel zero done m (once, all, len) =
      Yields-pure (IsMetadata (done + 0)) m (once, all, omega arith)
  read_metadata-Yields fuel (suc n) done m (once, all, len) =
      Yields-bind (IsPair h) (IsMetadata (done + suc n)) 0 0 (read_kv_pair h fuel) _
        (read_kv_pair-Yields fuel)
        (λ p w.
          subst (λ k. Yields (IsMetadata k) 0 (read_metadata h fuel n (insert p.0 p.1 m)))
            (omega arith)
            (read_metadata-Yields fuel n (suc done) (insert p.0 p.1 m) (
              insert-IsMap p.0 p.1 m once,
              insert-All (IsPair h) p.0 p.1 m w all,
              omega (arith, length-insert-le p.0 p.1 m),
            )))

  pub read_metadata_all-Yields : (fuel n : ℕ) → Yields (IsMetadata n) 0 (read_metadata h fuel n [])
  unfolding IsMap
  read_metadata_all-Yields fuel n =
      subst (λ k. Yields (IsMetadata k) 0 (read_metadata h fuel n [])) (omega arith)
        (read_metadata-Yields fuel n 0 [] (tt, tt, omega arith))

  pub read_tensor_info-Yields : Yields (IsTensor h) 0 (read_tensor_info h)
  read_tensor_info-Yields = Yields-le (IsTensor h) 0 24 _ (omega arith) (
      Yields-bind (IsText h) (IsTensor h) 8 16 (read_string h) _ (read_string-Yields h order)
        (λ name text.
          Yields-bind (λ n. n < 2 ^ 32) (IsTensor h) 4 12 (read_u32 h) _ (read_le-Yields h order 4)
            (λ n small.
              Yields-bind (λ _. h.fits_dims n ≡ true) (IsTensor h) 0 12 (reserve (h.fits_dims n)) _
                (reserve-Yields (h.fits_dims n))
                (λ u fits.
                  Yields-bind (λ ds. (length ds ≡ n) × All (λ d. d < 2 ^ 64) ds) (IsTensor h) 0 12
                    (repeat n (read_u64 h)) _
                    (repeat-Yields (λ d. d < 2 ^ 64) n (read_u64 h)
                      (Yields-le (λ d. d < 2 ^ 64) 0 8 (read_u64 h) (omega arith)
                        (read_le-Yields h order 8)))
                    (λ shape dims.
                      Yields-bind (λ n. n < 2 ^ 32) (IsTensor h) 4 8 (read_u32 h) _
                        (read_le-Yields h order 4)
                        (λ id id_small.
                          Yields-bind (λ n. n < 2 ^ 64) (IsTensor h) 8 0 (read_u64 h) _
                            (read_le-Yields h order 8)
                            (λ offset offset_small.
                              Yields-bind IsDtype (IsTensor h) 0 0 (dtype_from_id id) _
                                (dtype_from_id-Yields id)
                                (λ dtype known. Yields-pure (IsTensor h) _ (
                                  text,
                                  omega arith,
                                  subst (λ l. h.fits_dims l ≡ true) (sym dims.0) fits,
                                  dims.1,
                                  known,
                                  offset_small,
                                )))))))))

  pub read_magic-Yields : Yields (λ n. Unit) 4 read_magic
  read_magic-Yields =
      Yields-bind (λ s. (length s ≡ 4) × All IsByte s) (λ n. Unit) 4 0 (read_exact 4) _
        (read_exact-Yields 4) (λ s w. Yields-pure (λ n. Unit) (from_le_bytes s) tt)

  pub version-Yields :
      (b : Bool) → Yields (λ n. n < 2 ^ 32) 0 (if b then read_u32 h else fail invalid_magic)
  version-Yields true = Yields-le (λ n. n < 2 ^ 32) 0 4 _ (omega arith) (read_le-Yields h order 4)
  version-Yields false = Yields-fail (λ n. n < 2 ^ 32) 0 invalid_magic

  read_model-Yields : (fuel : ℕ) → Yields (IsModel h) 0 (read_model h fuel)
  read_model-Yields fuel = Yields-le (IsModel h) 0 20 _ (omega arith) (
      Yields-bind (λ n. Unit) (IsModel h) 4 16 read_magic _ read_magic-Yields
        (λ magic u.
          Yields-bind (λ n. n < 2 ^ 32) (IsModel h) 0 16 _ _ (version-Yields (magic == gguf_magic))
            (λ version version_small.
              Yields-bind (λ n. n < 2 ^ 64) (IsModel h) 8 8 (read_u64 h) _
                (read_le-Yields h order 8)
                (λ n n_small.
                  Yields-bind (λ n. n < 2 ^ 64) (IsModel h) 8 0 (read_u64 h) _
                    (read_le-Yields h order 8)
                    (λ k k_small.
                      Yields-bind (IsMetadata k) (IsModel h) 0 0 (read_metadata h fuel k []) _
                        (read_metadata_all-Yields fuel k)
                        (λ m metadata.
                          Yields-bind (λ _. h.fits_tensors n ≡ true) (IsModel h) 0 0
                            (reserve (h.fits_tensors n)) _ (reserve-Yields (h.fits_tensors n))
                            (λ u fits.
                              Yields-bind (λ ts. (length ts ≡ n) × All (IsTensor h) ts) (IsModel h)
                                0 0 (repeat n (read_tensor_info h)) _
                                (repeat-Yields (IsTensor h) n (read_tensor_info h)
                                  read_tensor_info-Yields)
                                (λ ts tensors.
                                  Yields-pure (IsModel h)
                                    (record { version = version; metadata = m; tensors = ts })
                                    (record {
                                      version_ok = version_small;
                                      metadata_count_ok = omega arith;
                                      tensor_count_ok = omega arith;
                                      tensors_fit =
                                          subst (λ l. h.fits_tensors l ≡ true) (sym tensors.0) fits;
                                      metadata_map = metadata.0;
                                      metadata_ok = metadata.1;
                                      tensors_ok = tensors.1;
                                    })))))))))

parsed :
    (h : Host) (file : Bytes) (m : GgufModel) (x : Result GgufError (GgufModel × Bytes))
    → Outcome (IsModel h) 0 file x
    → value_of x ≡ ok m
    → IsModel h m
parsed h file m (ok p) w e = subst (IsModel h) (ap (λ r. elim r [ ok a ↦ a | err x ↦ m ]) e) w.0
parsed h file m (err x) w e = absurd (ground arith)

-- A model that is parsed from bytes is well formed: its numbers fit their types, its texts are UTF-8, its
-- metadata has each key once, the values of an array have one type, its type names are the parser's, and
-- memory was given for its vectors.
pub parse-IsModel :
    (h : Host)
    → IsByteOrder h
    → (file : Bytes) (m : GgufModel) → All IsByte file
    → parse h file ≡ ok m
    → IsModel h m
unfolding Yields
parse-IsModel h order file m bytes e =
    parsed h file m (read_model h (suc (length file)) file)
      (read_model-Yields h order (suc (length file)) file bytes) e
