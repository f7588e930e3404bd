-- ===== src/Directory/Tests.antt =====
-- services/tensor-directory/src/lib.rs: runs at concrete inputs.
use tensorgrid.Base.{
  ◌≡◌, refl, false, none, some, List, [], ◌∷◌, ℕ_discrete, id_key, name_key, String-discrete,
}
use tensorgrid.HashMap.{get, insert, remove, modify, upsert}
use tensorgrid.Types.{PhysicalPlacement, primary}
use tensorgrid.Directory.View.{locate, placed}
use tensorgrid.Directory.Validity.{IsValid, run-new-IsValid}
use tensorgrid.Directory.Refinement.{locate-run, spec_run}
use tensorgrid.Directory.Eviction.{evict_drains}
use tensorgrid.Directory.Exact.{IsExactIndex, index_exact}
use tensorgrid.Directory.{
  Registration, Op, register, transfer, register_tensor, evict_from_node, evict_loop, off_node,
  transfer_tensor, add_placement, step, run, new,
}

abbrev on_node_7 : PhysicalPlacement
on_node_7 = record { node_id = 7; device = "cpu:0"; offset = 0; length = 1024; role = primary }

abbrev weights : Registration
weights = record {
  tensor_id = "w";
  shape = 128 ∷ 128 ∷ [];
  dtype = "f32";
  placement = on_node_7;
  mutable = false;
  owner_session = none;
}

abbrev copied_once : List Op
copied_once = register weights 0 0 ∷ transfer "w" 7 8 1024 ∷ []

-- The transfer leaves the tensor on both nodes.
transfer_copies : locate (run new copied_once) "w" ≡ some (7 ∷ 8 ∷ [])
unfolding locate run step new register_tensor transfer_tensor add_placement get insert modify upsert
    String-discrete ℕ_discrete
transfer_copies = refl

evict_last : (evict_from_node 7 (run new (register weights 0 0 ∷ []))).1 ≡ "w" ∷ []
unfolding evict_from_node evict_loop off_node run step new register_tensor get insert remove modify
    upsert String-discrete ℕ_discrete
evict_last = refl

run-new-IsValid_example : IsValid (run new copied_once)
run-new-IsValid_example = run-new-IsValid copied_once

locate-run_example : locate (run new copied_once) "w" ≡ spec_run (λ _. none) copied_once "w"
locate-run_example = locate-run copied_once "w"

evict_drains_example : placed (evict_from_node 7 (run new copied_once)).0 "w" 7 ≡ false
unfolding ℕ_discrete
evict_drains_example = (evict_drains 7 7 "w" (run new copied_once) (run-new-IsValid copied_once)).0

index_exact_example : IsExactIndex (run new copied_once)
unfolding locate new get
index_exact_example = index_exact copied_once (refl, (tt, tt))

abbrev moved : Registration
moved = record weights { placement = record on_node_7 { node_id = 9 } }
