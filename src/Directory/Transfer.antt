-- ===== src/Directory/Transfer.antt =====
-- services/tensor-directory/src/lib.rs: lemmas on `transfer_tensor`.
use tensorgrid.Base.{
  ℕ, ◌≡◌, refl, Bool, true, false, Option, none, some, List, [], ◌∷◌, inl, inr, map, arith, after,
  contains, id_key, name_key, Option-cases,
}
use tensorgrid.HashMap.{get}
use tensorgrid.Types.{NodeId, TensorId, PhysicalPlacement, replica}
use tensorgrid.Directory.View.{locate, member}
use tensorgrid.Directory.{TensorDirectory, find_on, transfer_tensor, add_placement}

abbrev is_found : Option PhysicalPlacement → Bool
is_found none = false
is_found (some p) = true

find_on-contains :
    (n : NodeId) (ps : List PhysicalPlacement)
    → is_found (find_on n ps) ≡ contains n (map (λ p. p.node_id) ps)
unfolding find_on contains
find_on-contains n [] = refl
find_on-contains n (p ∷ ps) = ground (arith, find_on-contains n ps)

pub data Transferred (t : TensorId) (from to : NodeId) (d : TensorDirectory)
    : TensorDirectory → Type 0 where
  refused :
      {u : TensorDirectory} → member from (locate d t) ≡ false → u ≡ d → Transferred t from to d u
  copied :
      (p : PhysicalPlacement) {u : TensorDirectory}
      → member from (locate d t) ≡ true
      → p.node_id ≡ to
      → u ≡ after d (add_placement t p d)
      → Transferred t from to d u

pub transfer-Transferred :
    (t : TensorId) (from to : NodeId) (bytes : ℕ) (d : TensorDirectory)
    → Transferred t from to d (after d (transfer_tensor t from to bytes d))
unfolding transfer_tensor locate
transfer-Transferred t from to bytes d = elim (Option-cases (get t d.tensors)) [
  | inl e ↦ refused (rw e) (rw (e, transfer_tensor))
  | inr (e, h) ↦ elim (Option-cases (find_on from e.placements)) [
    | inl k ↦
        refused (rw h (ground (arith, find_on-contains from e.placements)))
          (rw (h, transfer_tensor) (rw (k, transfer_tensor)))
    | inr (p, k) ↦
        copied
          (record { node_id = to; device = p.device; offset = 0; length = bytes; role = replica })
          (rw h (ground (arith, find_on-contains from e.placements))) refl
          (rw (h, transfer_tensor) (rw (k, transfer_tensor)))
  ]
]
