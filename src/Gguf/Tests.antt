-- ===== src/Gguf/Tests.antt =====
-- crates/model-format/src/lib.rs: a small file, with memory for less than a thousand of everything.
use tensorgrid.Base.{
  from_le_bytes, Bytes, String-discrete, ℕ_discrete, sum_u64, some, ◌&&◌, ◌≡◌, ◌≢◌, refl, Bool,
  true, [], ◌∷◌, ◌++◌, arith, ok, err, ltb, All, none, u64,
}
use tensorgrid.HashMap.{get, insert}
use tensorgrid.HashMap.Unique.{IsMap}
use tensorgrid.Gguf.{
  is, Bytes-discrete, codes, nil, cons, negsuc, int8, boolean, string, array, GgufModel,
  dtype_bytes, calculate_size, get_architecture, get_context_length,
}
use tensorgrid.Gguf.Readers.{
  utf8_rest, repeat, Host, IsByteOrder, ◌>>=◌, pure, read_exact, unfinished,
}
use tensorgrid.Gguf.Parser.{read_value, read_items, read_metadata, read_model, value_of, parse}
use tensorgrid.Gguf.Encoding.{encode_value, IsWritable}
use tensorgrid.Gguf.File.{dtype_id, encode_model, IsModel}
use tensorgrid.Gguf.Parsing.{parse-encode_model}
use tensorgrid.Gguf.Accepting.{parse-IsModel}
use tensorgrid.Gguf.Total.{parse_finishes}
use tensorgrid.Gguf.Size.{meant_size, calculate_size-mod}
use tensorgrid.Gguf.Yields.{IsByte}

abbrev small_host : Host
small_host = record {
  read_le = λ n. read_exact n >>= λ s. pure (from_le_bytes s);
  fits_bytes = λ n. ltb n 1000;
  fits_values = λ n. ltb n 1000;
  fits_dims = λ n. ltb n 1000;
  fits_tensors = λ n. ltb n 1000;
}

small_host-IsByteOrder : IsByteOrder small_host
small_host-IsByteOrder = record { read_le_ok = λ n bs. refl }

-- An array of arrays, a text and a number below zero.
abbrev tiny : GgufModel
tiny = record {
  version = 3;
  metadata =
      (codes "general.architecture", string (codes "llama"))
      ∷ (codes "grid", array (cons (array (cons (boolean true) nil)) (cons (array nil) nil)))
      ∷ (codes "bias", int8 (negsuc 4))
      ∷ [];
  tensors = record { name = codes "w"; shape = 2 ∷ 3 ∷ []; dtype = "f16"; offset = 64 } ∷ [];
}

abbrev file : Bytes
file = encode_model tiny

tiny-IsModel : IsModel small_host tiny
unfolding IsMap get Bytes-discrete IsWritable utf8_rest dtype_id is String-discrete ℕ_discrete
tiny-IsModel = record {
  version_ok = omega arith;
  metadata_count_ok = omega arith;
  tensor_count_ok = omega arith;
  tensors_fit = refl;
  metadata_map = (refl, (refl, (refl, tt)));
  metadata_ok = (
    ((refl, omega arith, refl), (refl, omega arith, refl)),
    (
      (
        (refl, omega arith, refl),
        (
          omega arith,
          refl,
          (refl, (omega arith, refl, (refl, tt, tt)), (refl, (omega arith, refl, tt), tt)),
        ),
      ),
      (((refl, omega arith, refl), omega arith), tt),
    ),
  );
  tensors_ok = (
    (
      (refl, omega arith, refl),
      omega arith,
      refl,
      (omega arith, (omega arith, tt)),
      refl,
      omega arith,
    ),
    tt,
  );
}

parse-encode_model_example : parse small_host (encode_model tiny ++ 7 ∷ []) ≡ ok tiny
parse-encode_model_example =
    parse-encode_model small_host small_host-IsByteOrder tiny (7 ∷ []) tiny-IsModel

small_bytes : Bytes → Bool
small_bytes [] = true
small_bytes (b ∷ bs) = ltb b 256 && small_bytes bs

small_bytes-IsByte : (bs : Bytes) → small_bytes bs ≡ true → All IsByte bs
unfolding small_bytes
small_bytes-IsByte [] h = tt
small_bytes-IsByte (b ∷ bs) h = (ground arith, small_bytes-IsByte bs (ground arith))

file-IsByte : All IsByte file
unfolding small_bytes encode_value dtype_id is
file-IsByte = small_bytes-IsByte file refl

file_parsed : parse small_host file ≡ ok tiny
unfolding read_value read_items read_metadata repeat utf8_rest insert Bytes-discrete encode_value
    dtype_id is String-discrete ℕ_discrete
file_parsed = refl

parse-IsModel_example : IsModel small_host tiny
parse-IsModel_example =
    parse-IsModel small_host small_host-IsByteOrder file tiny file-IsByte file_parsed

parse_finishes_example :
    (parse small_host file ≡ value_of (read_model small_host 1000 file))
    × (parse small_host file ≢ err unfinished)
unfolding encode_value
parse_finishes_example =
    parse_finishes small_host small_host-IsByteOrder file 1000 file-IsByte (omega arith)

calculate_size-mod_example :
    (calculate_size tiny ≡ u64 (meant_size tiny.tensors))
    × All (λ t. dtype_bytes t.dtype ≢ none) tiny.tensors
calculate_size-mod_example =
    calculate_size-mod small_host small_host-IsByteOrder file tiny file-IsByte file_parsed

tiny_size : calculate_size tiny ≡ 12
unfolding dtype_bytes is String-discrete sum_u64
tiny_size = refl

tiny_architecture : get_architecture tiny ≡ some (codes "llama")
unfolding get Bytes-discrete ℕ_discrete
tiny_architecture = refl

tiny_context : get_context_length tiny ≡ none
unfolding get Bytes-discrete ℕ_discrete
tiny_context = refl
