-- ===== src/Probe/Numbers.antt =====
-- std's `parse::<u64>` on a decimal text, as crates/hardware-probe/src/lib.rs uses it.
use Prim.Native.Char.{Char, code}
use Prim.Native.String.{String, [], ◌∷◌}
use tensorgrid.Base.{
  ℕ, ◌+◌, ◌-◌, ◌*◌, ◌^◌, Option, none, some, ltb, leb, ◌==◌, ◌&&◌, if◌then◌else◌, and_then,
}

abbrev digit : Char → Option ℕ
digit c = if leb 48 (code c) && leb (code c) 57 then some (code c - 48) else none

abbrev push_digit : ℕ → ℕ → Option ℕ
push_digit n d = let m = n * 10 + d in if ltb m (2 ^ 64) then some m else none

-- None where a character is no digit or the number does not fit.
unfoldable pub parse_digits : Option ℕ → String → Option ℕ
parse_digits n [] = n
parse_digits n (c ∷ s) = parse_digits (and_then (λ m. and_then (push_digit m) (digit c)) n) s

abbrev parse_number : String → Option ℕ
parse_number [] = none
parse_number (c ∷ s) = parse_digits (some 0) (c ∷ s)

-- A sign `+` may stand in front.
unfoldable pub parse_u64 : String → Option ℕ
parse_u64 [] = none
parse_u64 (c ∷ s) = if code c == 43 then parse_number s else parse_number (c ∷ s)
