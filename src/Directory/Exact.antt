-- ===== src/Directory/Exact.antt =====
-- services/tensor-directory/src/lib.rs: the index where no tensor is registered twice.
use mathlib.Core.Option
use tensorgrid.Base.{
  ◌≡◌, refl, ap, none, List, [], ◌∷◌, arith, inl, inr, after, contains, id_key, name_key,
  Option-cases,
}
use tensorgrid.HashMap.{get}
use tensorgrid.Types.{NodeId, TensorId, PhysicalPlacement}
use tensorgrid.Directory.View.{locate, indexed, placed, nodes_of}
use tensorgrid.Directory.Changes.{
  locate-register, locate-access, locate-add, locate-drop, member-add_node, member-drop_node,
}
use tensorgrid.Directory.Index.{
  indexed-register, indexed-access, indexed-add, indexed-drop, indexed-evict,
}
use tensorgrid.Directory.Transfer.{Transferred, refused, copied, transfer-Transferred}
use tensorgrid.Directory.Validity.{IsValid, step-IsValid, new-IsValid, locate-evict}
use tensorgrid.Directory.{
  TensorDirectory, Op, register, access, add, drop, evict, transfer, add_placement,
  remove_placement, step, run, new,
}

abbrev pub IsExactIndex : TensorDirectory → Type 0
IsExactIndex d = (t : TensorId) (n : NodeId) → indexed d t n ≡ placed d t n

-- A registration is of a tensor that the directory does not know.
abbrev pub IsFresh : TensorDirectory → Op → Type 0
IsFresh d (register r _ _) = locate d r.tensor_id ≡ none
IsFresh d _ = Unit

abbrev pub AllFresh : TensorDirectory → List Op → Type 0
AllFresh d [] = Unit
AllFresh d (o ∷ os) = IsFresh d o × AllFresh (step d o) os

add_exact :
    (u : TensorId) (p : PhysicalPlacement) (d : TensorDirectory)
    → IsExactIndex d
    → IsExactIndex (after d (add_placement u p d))
unfolding add_placement locate
add_exact u p d x t n = elim (Option-cases (get u d.tensors)) [
  | inl e ↦ rw (e, add_placement) (x t n)
  | inr (e, h) ↦ ground (
    arith,
    locate-add t u p d,
    indexed-add t n u p d e h,
    member-add_node p.node_id n (locate d u) e (ap (Option.map nodes_of) h),
    x t n,
  )
]

drop_exact :
    (u : TensorId) (m : NodeId) (d : TensorDirectory)
    → IsExactIndex d
    → IsExactIndex (after d (remove_placement u m d))
unfolding remove_placement
drop_exact u m d x t n = elim (Option-cases (get u d.tensors)) [
  | inl e ↦ rw (e, remove_placement) (x t n)
  | inr (e, h) ↦ ground (
    arith,
    locate-drop t u m d,
    indexed-drop t n u m d e h,
    member-drop_node m n (locate d t),
    x t n,
  )
]

step_exact :
    (d : TensorDirectory) (o : Op)
    → IsValid d
    → IsExactIndex d
    → IsFresh d o
    → IsExactIndex (step d o)
unfolding step contains
step_exact d (register r created accessed) v x f t n = ground (
  arith,
  locate-register t r created accessed d,
  indexed-register t n r created accessed d,
  x t n,
)
step_exact d (access u now) v x f t n =
    rw (indexed-access t n u now d, locate-access t u now d) (x t n)
step_exact d (add u p) v x f t n = add_exact u p d x t n
step_exact d (drop u m) v x f t n = drop_exact u m d x t n
step_exact d (evict m) v x f t n =
    ground
      (arith, locate-evict m d t v, indexed-evict t n m d, member-drop_node m n (locate d t), x t n)
step_exact d (transfer u from to bytes) v x f t n = go (transfer-Transferred u from to bytes d)
  where
    go : {w : TensorDirectory} → Transferred u from to d w → indexed w t n ≡ placed w t n
    go (refused _ e) = rw e (x t n)
    go (copied p _ _ e) = rw e (add_exact u p d x t n)

run_exact :
    (d : TensorDirectory) (os : List Op)
    → IsValid d
    → IsExactIndex d
    → AllFresh d os
    → IsExactIndex (run d os)
unfolding run
run_exact d [] v x f = x
run_exact d (o ∷ os) v x f =
    run_exact (step d o) os (step-IsValid d o v) (step_exact d o v x f.0) f.1

new_exact : IsExactIndex new
unfolding new locate indexed get contains
new_exact t n = refl

-- After any calls on a new directory in which no registration names a tensor that is known at that
-- point, the index lists a tensor under a node exactly if the tensor has a placement there.
pub index_exact : (os : List Op) → AllFresh new os → IsExactIndex (run new os)
index_exact os f = run_exact new os new-IsValid new_exact f
