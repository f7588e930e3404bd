-- ===== src/HashMap/Entries.antt =====
-- A property of every entry that a lookup finds, kept by the changes of a map.
use mathlib.Core.Option.{get_or}
use tensorgrid.Base.{◌≡◌, subst, some, ◌⊎◌, inl, inr, arith, Key, Option-cases}
use tensorgrid.HashMap.{HashMap, get, insert, remove, modify, upsert}
use tensorgrid.HashMap.Laws.{get-insert, get-remove, get-modify, get-upsert}

module _ {ℓ} {K V : Type ℓ} ⦃key : Key K⦄ (k j : K) {w : V} where
  -- Where an entry of a changed map comes from.
  insert_origin :
      (v : V) (m : HashMap K V)
      → get j (insert k v m) ≡ some w
      → ((k ≡ j) × (v ≡ w)) ⊎ (get j m ≡ some w)
  insert_origin v m e = ground (arith, get-insert k j v m)

  remove_origin : (m : HashMap K V) → get j (remove k m) ≡ some w → get j m ≡ some w
  remove_origin m e = ground (arith, get-remove k j m)

  modify_origin :
      (f : V → V) (m : HashMap K V)
      → get j (modify k f m) ≡ some w
      → ((v : V) × (k ≡ j) × (get k m ≡ some v) × (f v ≡ w)) ⊎ (get j m ≡ some w)
  modify_origin f m e = elim (Option-cases (get k m)) [
    | inl absent ↦ inr (ground (arith, get-modify k j f m))
    | inr (v, present) ↦ elim (key.discrete k j) [
      | yes same ↦ inl (v, same, present, ground (arith, get-modify k j f m))
      | no other ↦ inr (ground (arith, get-modify k j f m))
    ]
  ]

  upsert_origin :
      (v : V) (f : V → V) (m : HashMap K V)
      → get j (upsert k v f m) ≡ some w
      → ((k ≡ j) × (f (get_or (get k m) v) ≡ w)) ⊎ (get j m ≡ some w)
  upsert_origin v f m e = ground (arith, get-upsert k j v f m)

module _ {ℓ} {K V : Type ℓ} ⦃key : Key K⦄ where
  abbrev pub AllEntries {κ} : (K → V → Type κ) → HashMap K V → Type (ℓ ⊔ κ)
  AllEntries P m = (k : K) (v : V) → get k m ≡ some v → P k v

  module _ {κ} (P : K → V → Type κ) (k : K) (m : HashMap K V) (h : AllEntries P m) where
    pub insert-AllEntries : (v : V) → P k v → AllEntries P (insert k v m)
    insert-AllEntries v p j w e = elim (insert_origin k j v m e) [
      | inl (same, here) ↦ subst (P j) here (subst (λ i. P i v) same p)
      | inr old ↦ h j w old
    ]

    pub remove-AllEntries : AllEntries P (remove k m)
    remove-AllEntries j w e = h j w (remove_origin k j m e)

    pub modify-AllEntries :
        (f : V → V) → ((v : V) → get k m ≡ some v → P k (f v)) → AllEntries P (modify k f m)
    modify-AllEntries f p j w e = elim (modify_origin k j f m e) [
      | inl (v, same, present, here) ↦ subst (P j) here (subst (λ i. P i (f v)) same (p v present))
      | inr old ↦ h j w old
    ]

    pub upsert-AllEntries :
        (v : V) (f : V → V) → P k (f (get_or (get k m) v)) → AllEntries P (upsert k v f m)
    upsert-AllEntries v f p j w e = elim (upsert_origin k j v f m e) [
      | inl (same, here) ↦ subst (P j) here (subst (λ i. P i (f (get_or (get k m) v))) same p)
      | inr old ↦ h j w old
    ]
