-- ===== src/Directory/Refinement.antt =====
-- services/tensor-directory/src/lib.rs: the operations against the specification.
use mathlib.Core.Path.{fun_ext}
use tensorgrid.Base.{◌≡◌, ◌∙◌, refl, ap, none, List, [], ◌∷◌, arith, ℕ, id_key, name_key}
use tensorgrid.HashMap.{get}
use tensorgrid.Types.{NodeId, TensorId}
use tensorgrid.Directory.View.{locate}
use tensorgrid.Directory.Spec.{Locations, spec_step}
use tensorgrid.Directory.Changes.{locate-register, locate-access, locate-add, locate-drop}
use tensorgrid.Directory.Transfer.{Transferred, refused, copied, transfer-Transferred}
use tensorgrid.Directory.Validity.{IsValid, step-IsValid, new-IsValid, locate-evict}
use tensorgrid.Directory.{
  TensorDirectory, Op, register, access, add, drop, evict, transfer, step, run, new,
}

locate-transfer :
    (u : TensorId) (from to : NodeId) (bytes : ℕ) (d : TensorDirectory) (t : TensorId)
    → locate (step d (transfer u from to bytes)) t
      ≡ spec_step (transfer u from to bytes) (locate d) t
unfolding step spec_step
locate-transfer u from to bytes d t = go (transfer-Transferred u from to bytes d)
  where
    go :
        {v : TensorDirectory}
        → Transferred u from to d v
        → locate v t ≡ spec_step (transfer u from to bytes) (locate d) t
    go (refused absent e) = ground (arith, ap (λ w. locate w t) e)
    go (copied p present here e) = ground (arith, ap (λ w. locate w t) e, locate-add t u p d)

locate-step :
    (o : Op) (d : TensorDirectory) (t : TensorId)
    → IsValid d
    → locate (step d o) t ≡ spec_step o (locate d) t
unfolding step spec_step
locate-step (register r created accessed) d t v = locate-register t r created accessed d
locate-step (access u now) d t v = locate-access t u now d
locate-step (add u p) d t v = locate-add t u p d
locate-step (drop u n) d t v = locate-drop t u n d
locate-step (evict n) d t v = locate-evict n d t v
locate-step (transfer u from to bytes) d t v = locate-transfer u from to bytes d t

unfoldable pub spec_run : Locations → List Op → Locations
spec_run l [] = l
spec_run l (o ∷ os) = spec_run (spec_step o l) os

locate-run_from :
    (d : TensorDirectory) (os : List Op) → IsValid d → locate (run d os) ≡ spec_run (locate d) os
unfolding run spec_run
locate-run_from d [] v = refl
locate-run_from d (o ∷ os) v =
    locate-run_from (step d o) os (step-IsValid d o v)
    ∙ ap (λ l. spec_run l os) (fun_ext (λ t. locate-step o d t v))

locate-new : (t : TensorId) → locate new t ≡ none
unfolding locate new get
locate-new t = refl

-- After any sequence of calls on a new directory, the nodes of each tensor's placements, in their
-- order, are those that the specification computes from the calls alone.
pub locate-run : (os : List Op) (t : TensorId) → locate (run new os) t ≡ spec_run (λ _. none) os t
locate-run os t =
    ap (λ (l : Locations). l t)
      (locate-run_from new os new-IsValid ∙ ap (λ l. spec_run l os) (fun_ext locate-new))
