-- ===== src/Directory/Validity.antt =====
-- services/tensor-directory/src/lib.rs: the invariant between the two maps.
use mathlib.Core.Option
use tensorgrid.Base.{
  ℕ, ◌≡◌, ◌≢◌, ◌∙◌, sym, ap, true, Option, none, some, List, [], ◌∷◌, arith, inl, inr, after,
  contains, id_key, name_key, Option-cases,
}
use tensorgrid.HashMap.{get}
use tensorgrid.Types.{NodeId, TensorId, PhysicalPlacement, DateTime}
use tensorgrid.Directory.View.{locate, indexed, placed, nodes_of}
use tensorgrid.Directory.Spec.{add_node, drop_node}
use tensorgrid.Directory.Changes.{
  locate-register, locate-access, locate-add, locate-drop, locate-evict_loop, member-add_node,
  member-drop_node, drop_node_populated, drop_node_absent,
}
use tensorgrid.Directory.Index.{
  indexed-register, indexed-access, indexed-add, indexed-drop, indexed-evict,
}
use tensorgrid.Directory.Transfer.{Transferred, refused, copied, transfer-Transferred}
use tensorgrid.Directory.{
  Registration, TensorEntry, TensorDirectory, Op, register, access, add, drop, evict, transfer,
  register_tensor, get_tensor, add_placement, remove_placement, evict_from_node, transfer_tensor,
  step, run, new,
}

-- Every placement is in its node's list, and no tensor is kept without a placement.
pub record IsValid (d : TensorDirectory) : Type 0 where
  pub covered : (t : TensorId) (n : NodeId) → placed d t n ≡ true → indexed d t n ≡ true
  pub populated : (t : TensorId) → locate d t ≢ some []

pub new-IsValid : IsValid new
unfolding new locate get
new-IsValid = record { covered = λ t n h. cc; populated = λ t h. cc }

register-IsValid :
    (r : Registration) (created accessed : DateTime) (d : TensorDirectory)
    → IsValid d
    → IsValid (register_tensor r created accessed d)
register-IsValid r created accessed d v = record {
  covered = λ t n h.
      unfold contains in
      ground (
        arith,
        locate-register t r created accessed d,
        indexed-register t n r created accessed d,
        v.covered t n,
      );
  populated = λ t h. ground (arith, locate-register t r created accessed d, v.populated t);
}

access-IsValid :
    (t : TensorId) (now : DateTime) (d : TensorDirectory)
    → IsValid d
    → IsValid (get_tensor t now d).0
access-IsValid u now d v = record {
  covered =
      λ t n h. rw (indexed-access t n u now d) (v.covered t n (rw (locate-access t u now d) at h));
  populated = λ t h. v.populated t (rw (locate-access t u now d) at h);
}

-- A node gained by tensor `u` is in the index too.
add_covered :
    (u : TensorId) (p : PhysicalPlacement) (d : TensorDirectory) (e : TensorEntry)
    → get u d.tensors ≡ some e
    → IsValid d
    → (t : TensorId) (n : NodeId) → placed (after d (add_placement u p d)) t n ≡ true
    → indexed (after d (add_placement u p d)) t n ≡ true
unfolding locate
add_covered u p d e h v t n q = ground (
  arith,
  locate-add t u p d,
  indexed-add t n u p d e h,
  member-add_node p.node_id n (locate d u) e (ap (Option.map nodes_of) h),
  v.covered t n,
)

add_populated : (n : NodeId) (l : Option (List NodeId)) → add_node n l ≢ some []
add_populated n none h = cc
add_populated n (some []) h = cc
add_populated n (some (m ∷ ms)) h = cc

pub add-IsValid :
    (u : TensorId) (p : PhysicalPlacement) (d : TensorDirectory)
    → IsValid d
    → IsValid (after d (add_placement u p d))
unfolding add_placement
add-IsValid u p d v = elim (Option-cases (get u d.tensors)) [
  | inl e ↦ rw (e, add_placement) v
  | inr (e, h) ↦ record {
    covered = add_covered u p d e h v;
    populated = λ t q.
        ground (arith, locate-add t u p d, add_populated p.node_id (locate d t), v.populated t);
  }
]

pub drop-IsValid :
    (u : TensorId) (n : NodeId) (d : TensorDirectory)
    → IsValid d
    → IsValid (after d (remove_placement u n d))
unfolding remove_placement
drop-IsValid u n d v = elim (Option-cases (get u d.tensors)) [
  | inl e ↦ rw (e, remove_placement) v
  | inr (e, h) ↦ record {
    covered = λ t m q. ground (
      arith,
      locate-drop t u n d,
      indexed-drop t m u n d e h,
      member-drop_node n m (locate d t),
      v.covered t m,
    );
    populated = λ t q.
        ground (arith, locate-drop t u n d, drop_node_populated n (locate d t), v.populated t);
  }
]

pub locate-evict :
    (n : NodeId) (d : TensorDirectory) (t : TensorId)
    → IsValid d
    → locate (evict_from_node n d).0 t ≡ drop_node n (locate d t)
unfolding evict_from_node locate indexed
locate-evict n d t v = ground (
  arith,
  locate-evict_loop t n (Option.get_or (get n d.node_tensors) []) d.tensors [],
  v.covered t n,
  drop_node_absent n (locate d t),
  v.populated t,
)

evict-IsValid : (n : NodeId) (d : TensorDirectory) → IsValid d → IsValid (evict_from_node n d).0
evict-IsValid n d v = record {
  covered = λ t m h. ground (
    arith,
    locate-evict n d t v,
    indexed-evict t m n d,
    member-drop_node n m (locate d t),
    v.covered t m,
  );
  populated = λ t h. drop_node_populated n (locate d t) (sym (locate-evict n d t v) ∙ h);
}

transfer-IsValid :
    (t : TensorId) (from to : NodeId) (bytes : ℕ) (d : TensorDirectory)
    → IsValid d
    → IsValid (after d (transfer_tensor t from to bytes d))
transfer-IsValid t from to bytes d v = go (transfer-Transferred t from to bytes d)
  where
    go : {u : TensorDirectory} → Transferred t from to d u → IsValid u
    go (refused _ e) = rw e v
    go (copied p _ _ e) = rw e (add-IsValid t p d v)

-- Every call keeps the invariant, whether it succeeds or fails.
pub step-IsValid : (d : TensorDirectory) (o : Op) → IsValid d → IsValid (step d o)
unfolding step
step-IsValid d (register r created accessed) v = register-IsValid r created accessed d v
step-IsValid d (access t now) v = access-IsValid t now d v
step-IsValid d (add t p) v = add-IsValid t p d v
step-IsValid d (drop t n) v = drop-IsValid t n d v
step-IsValid d (evict n) v = evict-IsValid n d v
step-IsValid d (transfer t from to bytes) v = transfer-IsValid t from to bytes d v

run-IsValid : (d : TensorDirectory) (os : List Op) → IsValid d → IsValid (run d os)
unfolding run
run-IsValid d [] v = v
run-IsValid d (o ∷ os) v = run-IsValid (step d o) os (step-IsValid d o v)

-- After any sequence of calls on a new directory, each placement of a tensor on a node is in that
-- node's list of the index, and every tensor has a placement.
pub run-new-IsValid : (os : List Op) → IsValid (run new os)
run-new-IsValid os = run-IsValid new os new-IsValid
