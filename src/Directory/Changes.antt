-- ===== src/Directory/Changes.antt =====
-- services/tensor-directory/src/lib.rs: lemmas on the placements, operation by operation.
use mathlib.Core.Option
use mathlib.Core.Option.{get_or}
use mathlib.Core.List.{map-append}
use tensorgrid.Base.{
  ◌≡◌, ◌≢◌, refl, ite, true, false, Option, none, some, List, [], ◌∷◌, map, arith, ap, ◌∙◌,
  ℕ_discrete, String-discrete, contains, contains-snoc, contains-retain_ne, retain_ne, id_key,
  name_key, Option-cases, after, inl, inr, if◌then◌else◌, retain_ne_twice, retain_ne_absent,
}
use tensorgrid.HashMap.{HashMap, get}
use tensorgrid.HashMap.Laws.{get-insert, get-remove, get-modify}
use tensorgrid.Types.{NodeId, TensorId, PhysicalPlacement, DateTime}
use tensorgrid.Directory.View.{locate, map-off_node, member, nodes_of}
use tensorgrid.Directory.Spec.{add_node, drop_node, known_if_placed}
use tensorgrid.Directory.{
  Registration, TensorEntry, TensorDirectory, register_tensor, new_entry, with_placements,
  get_tensor, add_placement, store_kept, off_node, remove_placement, accessed_at, push_placement,
  evict_loop, was_last,
}

known_if_placed-drop_node :
    (n : NodeId) (ns : List NodeId)
    → drop_node n (known_if_placed ns) ≡ known_if_placed (retain_ne n ns)
unfolding retain_ne
known_if_placed-drop_node n [] = refl
known_if_placed-drop_node n (m ∷ ns) = refl

pub drop_node_twice :
    (n : NodeId) (l : Option (List NodeId)) → drop_node n (drop_node n l) ≡ drop_node n l
drop_node_twice n none = refl
drop_node_twice n (some ns) =
    known_if_placed-drop_node n (retain_ne n ns) ∙ ap known_if_placed (retain_ne_twice n ns)

pub drop_node_absent :
    (n : NodeId) (l : Option (List NodeId)) → member n l ≡ false → l ≢ some [] → drop_node n l ≡ l
drop_node_absent n none h k = refl
drop_node_absent n (some []) h k = absurd (k refl)
drop_node_absent n (some (m ∷ ns)) h k = rw (retain_ne_absent n (m ∷ ns) h)

pub member-add_node :
    (n m : NodeId) (l : Option (List NodeId)) (k : TensorEntry)
    → l ≡ some (nodes_of k)
    → member m (add_node n l) ≡ ite (ℕ_discrete n m) true (member m l)
member-add_node n m l k h = rw h (contains-snoc m n (nodes_of k))

contains-known : (m : NodeId) (ns : List NodeId) → member m (known_if_placed ns) ≡ contains m ns
unfolding contains
contains-known m [] = refl
contains-known m (n ∷ ns) = refl

pub member-drop_node :
    (n m : NodeId) (l : Option (List NodeId))
    → member m (drop_node n l) ≡ ite (ℕ_discrete n m) false (member m l)
member-drop_node n m none = ground arith
member-drop_node n m (some ns) = contains-known m (retain_ne n ns) ∙ contains-retain_ne m n ns

pub drop_node_populated : (n : NodeId) (l : Option (List NodeId)) → drop_node n l ≢ some []
drop_node_populated n none = λ h. cc
drop_node_populated n (some ns) = known_populated (retain_ne n ns)
  where
    known_populated : (ms : List NodeId) → known_if_placed ms ≢ some []
    known_populated [] h = cc
    known_populated (m ∷ ms) h = cc

module _ (t : TensorId) where
  pub locate-register :
      (r : Registration) (created accessed : DateTime) (d : TensorDirectory)
      → locate (register_tensor r created accessed d) t
        ≡ ite (String-discrete r.tensor_id t) (some (r.placement.node_id ∷ [])) (locate d t)
  unfolding locate register_tensor
  locate-register r created accessed d =
      ground (arith, get-insert r.tensor_id t (new_entry r created accessed) d.tensors)

  pub locate-access :
      (u : TensorId) (now : DateTime) (d : TensorDirectory)
      → locate (get_tensor u now d).0 t ≡ locate d t
  unfolding locate get_tensor
  locate-access u now d = ground (arith, get-modify u t (accessed_at now) d.tensors)

  pub locate-add :
      (u : TensorId) (p : PhysicalPlacement) (d : TensorDirectory)
      → locate (after d (add_placement u p d)) t
        ≡ ite (String-discrete u t) (add_node p.node_id (locate d t)) (locate d t)
  unfolding locate add_placement
  locate-add u p d = elim (Option-cases (get u d.tensors)) [
    | inl e ↦ rw (e, add_placement) (ground arith)
    | inr (e, h) ↦
        rw (h, add_placement)
          (ground (
            arith,
            get-modify u t (push_placement p) d.tensors,
            map-append (λ (q : PhysicalPlacement). q.node_id) e.placements (p ∷ []),
          ))
  ]

  pub get-store_kept :
      (u : TensorId) (ps : List PhysicalPlacement) (m : HashMap TensorId TensorEntry)
      (e : TensorEntry)
      → get u m ≡ some e
      → Option.map nodes_of (get t (store_kept u ps m))
        ≡ ite
            (String-discrete u t)
            (known_if_placed (map (λ p. p.node_id) ps))
            (Option.map nodes_of (get t m))
  unfolding store_kept
  get-store_kept u [] m e h = ground (arith, get-remove u t m)
  get-store_kept u (p ∷ ps) m e h = ground (arith, get-modify u t (with_placements (p ∷ ps)) m)

  pub locate-drop :
      (u : TensorId) (n : NodeId) (d : TensorDirectory)
      → locate (after d (remove_placement u n d)) t
        ≡ ite (String-discrete u t) (drop_node n (locate d t)) (locate d t)
  unfolding locate remove_placement
  locate-drop u n d = elim (Option-cases (get u d.tensors)) [
    | inl e ↦ rw (e, remove_placement) (ground arith)
    | inr (e, h) ↦
        rw (h, remove_placement)
          (ground (
            arith,
            get-store_kept u (off_node n e.placements) d.tensors e h,
            map-off_node n e.placements,
          ))
  ]

  pub locate-evict_loop :
      (n : NodeId) (ts : List TensorId) (m : HashMap TensorId TensorEntry) (evicted : List TensorId)
      → Option.map nodes_of (get t (evict_loop n ts m evicted).0) ≡ (
          if contains t ts
          then drop_node n (Option.map nodes_of (get t m))
          else Option.map nodes_of (get t m))
  unfolding evict_loop contains
  locate-evict_loop n [] m evicted = ground arith
  locate-evict_loop n (u ∷ ts) m evicted = elim (Option-cases (get u m)) [
    | inl e ↦ rw (e, evict_loop) (ground (arith, locate-evict_loop n ts m evicted))
    | inr (e, h) ↦
        rw (h, evict_loop)
          (ground (
            arith,
            locate-evict_loop n ts (store_kept u (off_node n e.placements) m)
                (was_last u (off_node n e.placements) evicted),
            get-store_kept u (off_node n e.placements) m e h,
            map-off_node n e.placements,
            drop_node_twice n (Option.map nodes_of (get t m)),
          ))
  ]
