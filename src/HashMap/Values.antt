-- ===== src/HashMap/Values.antt =====
-- A property of every value of a map, kept by the changes of the map.
use mathlib.Core.Option.{some-injective}
use tensorgrid.Base.{◌≡◌, ◌∙◌, sym, subst, some, [], ◌∷◌, All, if_pos, if_neg, Key, id_key}
use tensorgrid.HashMap.{HashMap, get, insert, remove}

module _ {K V : Type 0} ⦃key : Key K⦄ (P : V → Type 0) where
  abbrev pub AllValues : HashMap K V → Type 0
  AllValues = All (λ e. P e.1)

  pub get-AllValues : (k : K) (m : HashMap K V) (v : V) → AllValues m → get k m ≡ some v → P v
  unfolding get
  get-AllValues k [] v h e = cc
  get-AllValues k ((j, w) ∷ m) v h e = elim (key.discrete j k) [
    | yes same ↦
        let found = sym (if_pos (key.discrete j k) same (some w) (get k m)) ∙ e in
        subst P (some-injective w v found) h.0
    | no other ↦
        get-AllValues k m v h.1 (sym (if_neg (key.discrete j k) other (some w) (get k m)) ∙ e)
  ]

  pub insert-AllValues :
      (k : K) (v : V) (m : HashMap K V) → AllValues m → P v → AllValues (insert k v m)
  unfolding insert
  insert-AllValues k v [] h p = (p, tt)
  insert-AllValues k v ((j, w) ∷ m) h p = elim (key.discrete j k) [
    | yes same ↦ rw (if_pos (key.discrete j k) same) (p, h.1)
    | no other ↦ rw (if_neg (key.discrete j k) other) (h.0, insert-AllValues k v m h.1 p)
  ]

  pub remove-AllValues : (k : K) (m : HashMap K V) → AllValues m → AllValues (remove k m)
  unfolding remove
  remove-AllValues k [] h = tt
  remove-AllValues k ((j, w) ∷ m) h = elim (key.discrete j k) [
    | yes same ↦ rw (if_pos (key.discrete j k) same) (remove-AllValues k m h.1)
    | no other ↦ rw (if_neg (key.discrete j k) other) (h.0, remove-AllValues k m h.1)
  ]
