-- ===== src/Gguf/Size.antt =====
-- crates/model-format/src/lib.rs: GgufParser::calculate_size.
use native.Mathlib.Nat.{add-mul-mod_self_left, mod-add-div}
use tensorgrid.Base.{
  Bytes, ℕ, ◌+◌, ◌*◌, ◌/◌, ◌%◌, ◌^◌, ◌≡◌, ◌≢◌, ◌<◌, sym, ap, ◌∙◌, String, List, [], ◌∷◌, ok, arith,
  All, map, none, sum_u64, u64,
}
use tensorgrid.Gguf.{
  GgufTensor, GgufModel, dtype_bytes, or_four, product_u64, tensor_size, calculate_size,
}
use tensorgrid.Gguf.Readers.{Host, IsByteOrder}
use tensorgrid.Gguf.Parser.{parse}
use tensorgrid.Gguf.File.{dtype_id, IsTensor}
use tensorgrid.Gguf.Yields.{IsByte}
use tensorgrid.Gguf.Accepting.{IsDtype, parse-IsModel}

abbrev product : List ℕ → ℕ
product [] = 1
product (x ∷ xs) = x * product xs

-- The size that is meant: each tensor's elements times its type's width.
abbrev pub meant_size : List GgufTensor → ℕ
meant_size [] = 0
meant_size (t ∷ ts) = product t.shape * or_four (dtype_bytes t.dtype) + meant_size ts

-- A factor may be reduced first.
mul-mod : (a b m : ℕ) → a % m * b % m ≡ a * b % m
mul-mod a b m =
    sym (add-mul-mod_self_left (a % m * b) m (a / m * b))
    ∙ ap (λ x. x % m) (spread ∙ ap (λ x. x * b) (mod-add-div a m))
  where
    spread : a % m * b + m * (a / m * b) ≡ (a % m + m * (a / m)) * b
    spread = grind arith

product_u64-mod : (acc : ℕ) (xs : List ℕ) → u64 (product_u64 acc xs) ≡ u64 (acc * product xs)
product_u64-mod acc [] = omega arith
product_u64-mod acc (x ∷ xs) =
    product_u64-mod (u64 (acc * x)) xs
    ∙ mul-mod (acc * x) (product xs) (2 ^ 64)
    ∙ ap u64 (grind arith)

tensor_size-mod :
    (t : GgufTensor) → tensor_size t ≡ u64 (product t.shape * or_four (dtype_bytes t.dtype))
tensor_size-mod t =
    let w = or_four (dtype_bytes t.dtype) in
    sym (mul-mod (product_u64 1 t.shape) w (2 ^ 64))
    ∙ ap (λ x. u64 (x * w)) (product_u64-mod 1 t.shape)
    ∙ mul-mod (1 * product t.shape) w (2 ^ 64)
    ∙ ap (λ x. u64 (x * w)) (omega arith)

sum_u64-mod :
    (acc : ℕ) (ts : List GgufTensor)
    → acc < 2 ^ 64
    → sum_u64 acc (map tensor_size ts) ≡ u64 (acc + meant_size ts)
unfolding sum_u64
sum_u64-mod acc [] small = omega arith
sum_u64-mod acc (t ∷ ts) small =
    omega (arith, sum_u64-mod (u64 (acc + tensor_size t)) ts (omega arith), tensor_size-mod t)

IsDtype-dtype_bytes : (t : String) → IsDtype t → dtype_bytes t ≢ none
unfolding dtype_bytes dtype_id
IsDtype-dtype_bytes t known none_is = ground arith

all_known :
    (h : Host) (ts : List GgufTensor)
    → All (IsTensor h) ts
    → All (λ t. dtype_bytes t.dtype ≢ none) ts
all_known h [] w = tt
all_known h (t ∷ ts) w = (IsDtype-dtype_bytes t.dtype w.0.4, all_known h ts w.1)

-- For a model that is parsed from bytes, the size is the sum over the tensors of the number of elements
-- times the width of the type, modulo 2 ^ 64, and no type falls back on the width 4 of an unknown one.
pub calculate_size-mod :
    (h : Host)
    → IsByteOrder h
    → (file : Bytes) (m : GgufModel) → All IsByte file
    → parse h file ≡ ok m
    → (calculate_size m ≡ u64 (meant_size m.tensors))
      × All (λ t. dtype_bytes t.dtype ≢ none) m.tensors
calculate_size-mod h order file m bytes e = (
  sum_u64-mod 0 m.tensors (omega arith) ∙ ap u64 (omega arith),
  all_known h m.tensors (parse-IsModel h order file m bytes e).tensors_ok,
)
