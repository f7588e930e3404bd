-- ===== src/HashMap/Laws.antt =====
-- What a lookup finds after each change of a map.
use mathlib.Core.Option
use mathlib.Core.Option.{get_or}
use tensorgrid.Base.{◌≡◌, refl, ite, none, some, [], ◌∷◌, arith, Key}
use tensorgrid.HashMap.{HashMap, get, insert, remove, modify, upsert}

module _ {ℓ} {K V : Type ℓ} ⦃key : Key K⦄ (k j : K) where
  pub get-insert :
      (v : V) (m : HashMap K V) → get j (insert k v m) ≡ ite (key.discrete k j) (some v) (get j m)
  unfolding get insert
  get-insert v [] = refl
  get-insert v ((i, w) ∷ m) = ground (arith, get-insert v m)

  pub get-remove : (m : HashMap K V) → get j (remove k m) ≡ ite (key.discrete k j) none (get j m)
  unfolding get remove
  get-remove [] = ground arith
  get-remove ((i, w) ∷ m) = ground (arith, get-remove m)

  pub get-modify :
      (f : V → V) (m : HashMap K V)
      → get j (modify k f m) ≡ ite (key.discrete k j) (Option.map f (get j m)) (get j m)
  unfolding get modify
  get-modify f [] = ground arith
  get-modify f ((i, w) ∷ m) = ground (arith, get-modify f m)

  pub get-upsert :
      (v : V) (f : V → V) (m : HashMap K V)
      → get j (upsert k v f m) ≡ ite (key.discrete k j) (some (f (get_or (get j m) v))) (get j m)
  unfolding get upsert
  get-upsert v f [] = ground arith
  get-upsert v f ((i, w) ∷ m) = ground (arith, get-upsert v f m)
