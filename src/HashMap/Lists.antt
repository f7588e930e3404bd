-- ===== src/HashMap/Lists.antt =====
-- The entries of a map as a list: a property of each, and their number.
use tensorgrid.Base.{suc, ◌≤◌, if_pos, if_neg, [], ◌∷◌, arith, Key, All, length}
use tensorgrid.HashMap.{HashMap, insert}

module _ {ℓ} {K V : Type ℓ} ⦃key : Key K⦄ where
  pub insert-All {κ} :
      (P : K × V → Type κ) (k : K) (v : V) (m : HashMap K V)
      → P (k, v)
      → All P m
      → All P (insert k v m)
  unfolding insert
  insert-All P k v [] p all = (p, tt)
  insert-All P k v ((j, w) ∷ m) p all = elim (key.discrete j k) [
    | yes same ↦ rw (if_pos (key.discrete j k) same) (p, all.1)
    | no other ↦ rw (if_neg (key.discrete j k) other) (all.0, insert-All P k v m p all.1)
  ]

  pub length-insert-le : (k : K) (v : V) (m : HashMap K V) → length (insert k v m) ≤ suc (length m)
  unfolding insert
  length-insert-le k v [] = omega arith
  length-insert-le k v ((j, w) ∷ m) = elim (key.discrete j k) [
    | yes same ↦ rw (if_pos (key.discrete j k) same) (omega arith)
    | no other ↦ rw (if_neg (key.discrete j k) other) (omega (arith, length-insert-le k v m))
  ]
