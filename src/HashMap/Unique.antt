-- ===== src/HashMap/Unique.antt =====
-- Maps in which each key stands once, as in every `HashMap`, and the changes that keep that.
use mathlib.Core.Option.{some-ne-none}
use tensorgrid.Base.{
  ◌≡◌, refl, subst, if_pos, if_neg, none, [], ◌∷◌, ◌++◌, arith, Key, ap, ◌≢◌, ◌∙◌, sym,
}
use tensorgrid.HashMap.{HashMap, get, insert, remove, modify}
use tensorgrid.HashMap.Laws.{get-insert, get-remove, get-modify}

module _ {ℓ} {K V : Type ℓ} ⦃key : Key K⦄ where
  unfoldable pub IsMap : HashMap K V → Type ℓ
  IsMap [] = Unit
  IsMap ((k, _) ∷ m) = (get k m ≡ none) × IsMap m

  pub insert-IsMap : (k : K) (v : V) (m : HashMap K V) → IsMap m → IsMap (insert k v m)
  unfolding IsMap insert get
  insert-IsMap k v [] u = (refl, tt)
  insert-IsMap k v ((j, w) ∷ m) u = elim (key.discrete j k) [
    | yes same ↦ rw (if_pos (key.discrete j k) same) (subst (λ i. get i m ≡ none) same u.0, u.1)
    | no other ↦
        rw (if_neg (key.discrete j k) other)
          (ground (arith, get-insert k j v m, u.0), insert-IsMap k v m u.1)
  ]

  pub modify-IsMap : (k : K) (f : V → V) (m : HashMap K V) → IsMap m → IsMap (modify k f m)
  unfolding IsMap modify get
  modify-IsMap k f [] u = tt
  modify-IsMap k f ((j, w) ∷ m) u = elim (key.discrete j k) [
    | yes same ↦ rw (if_pos (key.discrete j k) same) (u.0, u.1)
    | no other ↦
        rw (if_neg (key.discrete j k) other)
          (ground (arith, get-modify k j f m, u.0), modify-IsMap k f m u.1)
  ]

  pub remove-IsMap : (k : K) (m : HashMap K V) → IsMap m → IsMap (remove k m)
  unfolding IsMap remove get
  remove-IsMap k [] u = tt
  remove-IsMap k ((j, w) ∷ m) u = elim (key.discrete j k) [
    | yes same ↦ rw (if_pos (key.discrete j k) same) (remove-IsMap k m u.1)
    | no other ↦
        rw (if_neg (key.discrete j k) other)
          (ground (arith, get-remove k j m, u.0), remove-IsMap k m u.1)
  ]

  get-append_key : (k : K) (v : V) (m rest : HashMap K V) → get k (m ++ (k, v) ∷ rest) ≢ none
  unfolding get
  get-append_key k v [] rest h =
      absurd (some-ne-none _ (sym (if_pos (key.discrete k k) refl _ _) ∙ h))
  get-append_key k v ((j, w) ∷ m) rest h = elim (key.discrete j k) [
    | yes same ↦ absurd (some-ne-none _ (sym (if_pos (key.discrete j k) same _ _) ∙ h))
    | no other ↦ get-append_key k v m rest (sym (if_neg (key.discrete j k) other _ _) ∙ h)
  ]

  -- A key that no entry has goes to the end.
  pub insert-snoc :
      (k : K) (v : V) (m rest : HashMap K V)
      → IsMap (m ++ (k, v) ∷ rest)
      → insert k v m ≡ m ++ (k, v) ∷ []
  unfolding IsMap insert
  insert-snoc k v [] rest u = refl
  insert-snoc k v ((j, w) ∷ m) rest u = elim (key.discrete j k) [
    | yes same ↦
        absurd (get-append_key k v m rest (subst (λ i. get i (m ++ (k, v) ∷ rest) ≡ none) same u.0))
    | no other ↦ if_neg (key.discrete j k) other _ _ ∙ ap (◌∷◌ (j, w)) (insert-snoc k v m rest u.1)
  ]
