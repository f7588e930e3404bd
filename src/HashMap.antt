-- ===== src/HashMap.antt =====
-- std's `HashMap` as an association list. A map iterates in the order of its list: no order is
-- documented, and every theorem is about every list.
pub mod Laws
pub mod Entries
pub mod Values
pub mod Unique
pub mod Lists
use tensorgrid.Base.{◌≡◌, ite, ℕ, Option, none, some, List, [], ◌∷◌, map, length, Key}

abbrev pub HashMap {ℓ} : Type ℓ → Type ℓ → Type ℓ
HashMap K V = List (K × V)

module _ {ℓ} {K V : Type ℓ} where
  abbrev pub keys : HashMap K V → List K
  keys = map (λ e. e.0)

  abbrev pub values : HashMap K V → List V
  values = map (λ e. e.1)

module _ {ℓ} {K V : Type ℓ} ⦃key : Key K⦄ where
  unfoldable pub get : K → HashMap K V → Option V
  get k [] = none
  get k ((j, v) ∷ m) = ite (key.discrete j k) (some v) (get k m)

  -- A key that is there keeps its place.
  unfoldable pub insert : K → V → HashMap K V → HashMap K V
  insert k v [] = (k, v) ∷ []
  insert k v ((j, w) ∷ m) = ite (key.discrete j k) ((k, v) ∷ m) ((j, w) ∷ insert k v m)

  unfoldable pub remove : K → HashMap K V → HashMap K V
  remove k [] = []
  remove k ((j, w) ∷ m) = ite (key.discrete j k) (remove k m) ((j, w) ∷ remove k m)

  -- A change through `get_mut`; nothing happens on a missing key.
  unfoldable pub modify : K → (V → V) → HashMap K V → HashMap K V
  modify k f [] = []
  modify k f ((j, w) ∷ m) = ite (key.discrete j k) ((j, f w) ∷ m) ((j, w) ∷ modify k f m)

  -- A change through `entry(k).or_insert_with(|| v)`.
  unfoldable pub upsert : K → V → (V → V) → HashMap K V → HashMap K V
  upsert k v f [] = (k, f v) ∷ []
  upsert k v f ((j, w) ∷ m) = ite (key.discrete j k) ((j, f w) ∷ m) ((j, w) ∷ upsert k v f m)
