-- ===== src/Base/ByteLists.antt =====
-- Numbers as bytes, and lists of bytes cut in two.
use Prim.Native.Nat.{ℕ, zero, suc, ◌+◌, ◌*◌, ◌/◌, ◌%◌, ◌^◌, ◌<◌}
use mathlib.Core.Path.{◌≡◌, refl, ap}
use mathlib.Core.List.{List, [], ◌∷◌, ◌++◌}
use native.Mathlib.Omega.{arith}
use tensorgrid.Base.Lists.{length, take}

abbrev pub Bytes : Type 0
Bytes = List ℕ

abbrev pub drop {ℓ} : {A : Type ℓ} → ℕ → List A → List A
drop zero xs = xs
drop (suc n) [] = []
drop (suc n) (x ∷ xs) = drop n xs

-- `u32::from_le_bytes` and its like.
abbrev pub from_le_bytes : Bytes → ℕ
from_le_bytes [] = 0
from_le_bytes (b ∷ bs) = b + 256 * from_le_bytes bs

abbrev pub to_le_bytes : ℕ → ℕ → Bytes
to_le_bytes zero n = []
to_le_bytes (suc k) n = n % 256 ∷ to_le_bytes k (n / 256)

-- The most significant byte first.
abbrev pub to_be_bytes : ℕ → ℕ → Bytes
to_be_bytes zero n = []
to_be_bytes (suc k) n = to_be_bytes k (n / 256) ++ n % 256 ∷ []

-- After bytes that stand for a number, more bytes.
abbrev pub from_be_bytes : ℕ → Bytes → ℕ
from_be_bytes acc [] = acc
from_be_bytes acc (b ∷ bs) = from_be_bytes (acc * 256 + b) bs

pub from_be_bytes-snoc :
    (acc : ℕ) (bs : Bytes) (b : ℕ)
    → from_be_bytes acc (bs ++ b ∷ []) ≡ from_be_bytes acc bs * 256 + b
from_be_bytes-snoc acc [] b = refl
from_be_bytes-snoc acc (c ∷ bs) b = from_be_bytes-snoc (acc * 256 + c) bs b

pub from_be_bytes-to_be_bytes : (k n : ℕ) → n < 256 ^ k → from_be_bytes 0 (to_be_bytes k n) ≡ n
from_be_bytes-to_be_bytes zero n small = omega arith
from_be_bytes-to_be_bytes (suc k) n small = omega (
  arith,
  from_be_bytes-to_be_bytes k (n / 256) (omega arith),
  from_be_bytes-snoc 0 (to_be_bytes k (n / 256)) (n % 256),
)

pub length-to_le_bytes : (k n : ℕ) → length (to_le_bytes k n) ≡ k
length-to_le_bytes zero n = refl
length-to_le_bytes (suc k) n = ap suc (length-to_le_bytes k (n / 256))

pub from_le_bytes-to_le_bytes : (k n : ℕ) → n < 256 ^ k → from_le_bytes (to_le_bytes k n) ≡ n
from_le_bytes-to_le_bytes zero n small = omega arith
from_le_bytes-to_le_bytes (suc k) n small =
    omega (arith, from_le_bytes-to_le_bytes k (n / 256) (omega arith))

pub take-append : (xs ys : Bytes) → take (length xs) (xs ++ ys) ≡ xs
take-append [] ys = refl
take-append (x ∷ xs) ys = ap (◌∷◌ x) (take-append xs ys)

pub drop-append : (xs ys : Bytes) → drop (length xs) (xs ++ ys) ≡ ys
drop-append [] ys = refl
drop-append (x ∷ xs) ys = drop-append xs ys
