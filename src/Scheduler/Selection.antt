-- ===== src/Scheduler/Selection.antt =====
-- services/scheduler/src/lib.rs: `select_nodes`.
use Prim.Native.Nat.{Ordering}
use mathlib.Core.List.{Permᴰ}
use mathlib.Core.List.Permᴰ
use tensorgrid.Base.{◌≡◌, refl, subst, some, List, [], ◌∷◌, map, take, retain, All}
use tensorgrid.Float.{Float}
use tensorgrid.Types.{LogicalCluster}
use tensorgrid.Planner.{is_healthy}
use tensorgrid.Scheduler.{Scored, scored, insert_scored, sort_scored, select_nodes}

module _ {F : Type 0} (fl : Float F) where
  abbrev pub IsAtMost : F → F → Type 0
  IsAtMost a b = fl.partial_cmp a b ≡ some Ordering.gt → ⊥

-- `partial_cmp` is a total order of the numbers among the floats, the values that are no NaN.
pub record IsOrdered {F : Type 0} (fl : Float F) (IsNumber : F → Type 0) : Type 0 where
  pub compared :
      (a b : F) → IsNumber a → IsNumber b → (o : Ordering) × (fl.partial_cmp a b ≡ some o)
  pub turned : (a b : F) → fl.partial_cmp a b ≡ some Ordering.gt → IsAtMost fl b a
  pub chained :
      (a b c : F)
      → IsNumber a
      → IsNumber b
      → IsNumber c
      → IsAtMost fl a b
      → IsAtMost fl b c
      → IsAtMost fl a c

module _ {F : Type 0} (fl : Float F) where
  -- Each score is at least as high as all that follow it.
  pub IsDescending : List (Scored fl) → Type 0
  IsDescending [] = Unit
  IsDescending (x ∷ xs) = All (λ y. IsAtMost fl y.1 x.1) xs × IsDescending xs

  -- The list is a sorted one of the same entries.
  abbrev pub IsSorting : List (Scored fl) → List (Scored fl) → Type 0
  IsSorting xs ys = Permᴰ ys xs × IsDescending ys

Perm-All {ℓ κ} : {A : Type ℓ} (P : A → Type κ) {xs ys : List A} → Permᴰ xs ys → All P xs → All P ys
Perm-All P Permᴰ.nil h = tt
Perm-All P (Permᴰ.cons e p) (h, hs) = (subst P e h, Perm-All P p hs)
Perm-All P (Permᴰ.swap e e') (h, (h', hs)) = (subst P e' h', (subst P e h, hs))
Perm-All P (Permᴰ.trans p q) h = Perm-All P q (Perm-All P p h)

module _ {F : Type 0} (fl : Float F) (IsNumber : F → Type 0) (ordered : IsOrdered fl IsNumber) where
  abbrev AllNumbers : List (Scored fl) → Type 0
  AllNumbers = All (λ s. IsNumber s.1)

  chain :
      (x y : Scored fl) (zs : List (Scored fl))
      → IsNumber x.1
      → IsNumber y.1
      → IsAtMost fl y.1 x.1
      → AllNumbers zs
      → All (λ z. IsAtMost fl z.1 y.1) zs
      → All (λ z. IsAtMost fl z.1 x.1) zs
  chain x y [] n m low ns h = tt
  chain x y (z ∷ zs) n m low ns h =
      (ordered.chained z.1 y.1 x.1 ns.0 m n h.0 low, chain x y zs n m low ns.1 h.1)

  insert_scored-IsSorting :
      (x : Scored fl) (ys : List (Scored fl))
      → IsNumber x.1
      → AllNumbers ys
      → IsDescending fl ys
      → (zs : List (Scored fl)) × (insert_scored fl x ys ≡ some zs) × IsSorting fl (x ∷ ys) zs
  unfolding insert_scored IsDescending
  insert_scored-IsSorting x [] n ns d = (x ∷ [], refl, (Permᴰ.refl _, (tt, tt)))
  insert_scored-IsSorting x (y ∷ ys) n ns d =
      let (o, e) = ordered.compared y.1 x.1 ns.0 n in
      place o e (insert_scored-IsSorting x ys n ns.1 d.1)
    where
      before : IsAtMost fl y.1 x.1 → IsDescending fl (x ∷ y ∷ ys)
      before low = ((low, chain x y ys n ns.0 low ns.1 d.0), d)

      place :
          (o : Ordering)
          → fl.partial_cmp y.1 x.1 ≡ some o
          → ((zs : List (Scored fl)) × (insert_scored fl x ys ≡ some zs) × IsSorting fl (x ∷ ys) zs)
          → (zs : List (Scored fl)) × (insert_scored fl x (y ∷ ys) ≡ some zs)
            × IsSorting fl (x ∷ y ∷ ys) zs
      place Ordering.gt e (zs, done, (same, sorted)) = (
        y ∷ zs,
        rw (e, insert_scored) (rw done refl),
        (
          Permᴰ.trans (Permᴰ.cons refl same) (Permᴰ.swap refl refl),
          (
            Perm-All (λ (z : Scored fl). IsAtMost fl z.1 y.1) (Permᴰ.symm same)
                (ordered.turned y.1 x.1 e, d.0),
            sorted,
          ),
        ),
      )
      place Ordering.eq e rest =
          (x ∷ y ∷ ys, rw (e, insert_scored) refl, (Permᴰ.refl _, before (λ f. cc)))
      place Ordering.lt e rest =
          (x ∷ y ∷ ys, rw (e, insert_scored) refl, (Permᴰ.refl _, before (λ f. cc)))

  sort_scored-IsSorting :
      (xs : List (Scored fl))
      → AllNumbers xs
      → (ys : List (Scored fl)) × (sort_scored fl xs ≡ some ys) × IsSorting fl xs ys
  unfolding sort_scored IsDescending
  sort_scored-IsSorting [] ns = ([], refl, (Permᴰ.nil, tt))
  sort_scored-IsSorting (x ∷ xs) ns =
      let (ys, done, (same, sorted)) = sort_scored-IsSorting xs ns.1 in
      let numbers = Perm-All (λ s. IsNumber s.1) (Permᴰ.symm same) ns.1 in
      let (zs, done', (same', sorted')) = insert_scored-IsSorting x ys ns.0 numbers sorted in
      (zs, rw done done', (Permᴰ.trans same' (Permᴰ.cons refl same), sorted'))

-- Where no score is a NaN, the selection does not panic, and takes the first three of the healthy
-- nodes in the descending order of their scores.
pub select_nodes-IsSorting :
    {F : Type 0} (fl : Float F) (IsNumber : F → Type 0)
    → IsOrdered fl IsNumber
    → (c : LogicalCluster F) → All (λ s. IsNumber s.1) (map (scored fl) (retain is_healthy c.nodes))
    → (sorted : List (Scored fl)) × IsSorting fl
        (map (scored fl) (retain is_healthy c.nodes))
        sorted
      × (select_nodes fl c ≡ some (map (λ s. s.0) (take 3 sorted)))
unfolding select_nodes
select_nodes-IsSorting fl IsNumber ordered c ns =
    let (sorted, done, sorting) =
      sort_scored-IsSorting fl IsNumber ordered (map (scored fl) (retain is_healthy c.nodes)) ns in
    (sorted, sorting, rw done refl)
