-- ===== src/Directory.antt =====
-- services/tensor-directory/src/lib.rs: where each tensor lies, and an index from nodes to tensors.
-- Both maps are locked for the whole of an operation, but for `transfer_tensor`, whose first part
-- is `new_replica`. Times are arguments. `register_tensor` and `evict_from_node` take the two locks in
-- opposite orders; that two calls may wait for each other is not modelled.
pub mod View
pub mod Spec
pub mod Changes
pub mod Index
pub mod Transfer
pub mod Validity
pub mod Refinement
pub mod Queries
pub mod Eviction
pub mod Exact
pub mod Tests
use mathlib.Core.Option.{get_or}
use mathlib.Core.List.{filter_map}
use tensorgrid.Base.{
  ℕ, ◌+◌, String, ite, Bool, true, false, ◌||◌, Option, none, some, List, [], ◌∷◌, ◌++◌, map,
  length, ℕ_discrete, ltb, u64, sum, retain, retain_ne, id_key, name_key, Result, ok, err, ◌>>=◌,
  after,
}
use tensorgrid.HashMap.{HashMap, values, get, insert, remove, modify, upsert}
use tensorgrid.Types.{
  Uuid, NodeId, SessionId, DateTime, TensorId, PlacementRole, replica, PhysicalPlacement,
}

pub record TensorEntry : Type 0 where
  pub tensor_id : TensorId
  pub shape : List ℕ  -- usize
  pub dtype : String
  pub placements : List PhysicalPlacement
  pub version : ℕ  -- u64
  pub mutable : Bool
  pub owner_session : Option Uuid
  pub created_at : DateTime
  pub last_accessed : DateTime

pub record TensorDirectory : Type 0 where
  pub tensors : HashMap TensorId TensorEntry
  pub node_tensors : HashMap NodeId (List TensorId)

pub data DirectoryError : Type 0 where
  tensor_not_found : TensorId → DirectoryError
  not_on_source : DirectoryError

unfoldable pub new : TensorDirectory
new = record { tensors = []; node_tensors = [] }

-- `entry(node).or_insert_with(Vec::new).push(tensor)`
index_tensor : NodeId → TensorId → HashMap NodeId (List TensorId) → HashMap NodeId (List TensorId)
index_tensor n t = upsert n [] (λ ts. ts ++ t ∷ [])

pub record Registration : Type 0 where
  pub tensor_id : TensorId
  pub shape : List ℕ
  pub dtype : String
  pub placement : PhysicalPlacement
  pub mutable : Bool
  pub owner_session : Option Uuid

abbrev new_entry : Registration → DateTime → DateTime → TensorEntry
new_entry r created accessed = record {
  tensor_id = r.tensor_id;
  shape = r.shape;
  dtype = r.dtype;
  placements = r.placement ∷ [];
  version = 1;
  mutable = r.mutable;
  owner_session = r.owner_session;
  created_at = created;
  last_accessed = accessed;
}

unfoldable pub register_tensor :
    Registration → DateTime → DateTime → TensorDirectory → TensorDirectory
unfolding index_tensor
register_tensor r created accessed d = record {
  tensors = insert r.tensor_id (new_entry r created accessed) d.tensors;
  node_tensors = index_tensor r.placement.node_id r.tensor_id d.node_tensors;
}

abbrev accessed_at : DateTime → TensorEntry → TensorEntry
accessed_at now e = record e { last_accessed = now }

unfoldable pub get_tensor :
    TensorId → DateTime → TensorDirectory → TensorDirectory × Option TensorEntry
get_tensor t now d = elim (get t d.tensors) [
  | none ↦ (d, none)
  | some e ↦ (record d { tensors = modify t (accessed_at now) d.tensors }, some (accessed_at now e))
]

abbrev push_placement : PhysicalPlacement → TensorEntry → TensorEntry
push_placement p e = record e { placements = e.placements ++ p ∷ []; version = u64 (e.version + 1) }

unfoldable pub add_placement :
    TensorId → PhysicalPlacement → TensorDirectory → Result DirectoryError TensorDirectory
unfolding index_tensor
add_placement t p d = elim (get t d.tensors) [
  | none ↦ err (tensor_not_found t)
  | some e ↦ ok (record {
    tensors = modify t (push_placement p) d.tensors;
    node_tensors = index_tensor p.node_id t d.node_tensors;
  })
]

-- `placements.retain(|p| p.node_id != node_id)`
pub off_node : NodeId → List PhysicalPlacement → List PhysicalPlacement
off_node n [] = []
off_node n (p ∷ ps) = ite (ℕ_discrete p.node_id n) (off_node n ps) (p ∷ off_node n ps)

abbrev with_placements : List PhysicalPlacement → TensorEntry → TensorEntry
with_placements ps e = record e { placements = ps; version = u64 (e.version + 1) }

-- The entry's new placements are stored, or the tensor goes with its last one.
pub store_kept :
    TensorId → List PhysicalPlacement → HashMap TensorId TensorEntry → HashMap TensorId TensorEntry
store_kept t [] tensors = remove t tensors
store_kept t (p ∷ ps) tensors = modify t (with_placements (p ∷ ps)) tensors

store_listed :
    NodeId → List TensorId → HashMap NodeId (List TensorId) → HashMap NodeId (List TensorId)
store_listed n [] index = remove n index
store_listed n (t ∷ ts) index = modify n (λ _. t ∷ ts) index

pub unindex_tensor :
    NodeId → TensorId → HashMap NodeId (List TensorId) → HashMap NodeId (List TensorId)
unfolding store_listed
unindex_tensor n t index = elim (get n index) [
  | none ↦ index
  | some ts ↦ store_listed n (retain_ne t ts) index
]

unfoldable pub remove_placement :
    TensorId → NodeId → TensorDirectory → Result DirectoryError TensorDirectory
remove_placement t n d = elim (get t d.tensors) [
  | none ↦ err (tensor_not_found t)
  | some e ↦ ok (record {
    tensors = store_kept t (off_node n e.placements) d.tensors;
    node_tensors = unindex_tensor n t d.node_tensors;
  })
]

-- `filter_map(|tid| tensors.get(tid).cloned())` over the node's list.
unfoldable pub get_tensors_on_node : NodeId → TensorDirectory → List TensorEntry
get_tensors_on_node n d = elim (get n d.node_tensors) [
  | none ↦ []
  | some ts ↦ filter_map (λ t. get t d.tensors) ts
]

owned_by : Uuid → TensorEntry → Bool
owned_by s e = elim e.owner_session [ none ↦ false | some o ↦ ite (ℕ_discrete o s) true false ]

unfoldable pub get_tensors_by_session : Uuid → TensorDirectory → List TensorEntry
unfolding owned_by
get_tensors_by_session s d = retain (owned_by s) (values d.tensors)

abbrev was_last : TensorId → List PhysicalPlacement → List TensorId → List TensorId
was_last t [] evicted = evicted ++ t ∷ []
was_last t (p ∷ ps) evicted = evicted

-- The loop of `evict_from_node`: the tensors, and the list `evicted` so far.
pub evict_loop :
    NodeId
    → List TensorId
    → HashMap TensorId TensorEntry
    → List TensorId
    → HashMap TensorId TensorEntry × List TensorId
evict_loop n [] tensors evicted = (tensors, evicted)
evict_loop n (t ∷ ts) tensors evicted = elim (get t tensors) [
  | none ↦ evict_loop n ts tensors evicted
  | some e ↦
      evict_loop n ts (store_kept t (off_node n e.placements) tensors)
        (was_last t (off_node n e.placements) evicted)
]

unfoldable pub evict_from_node : NodeId → TensorDirectory → TensorDirectory × List TensorId
evict_from_node n d =
    let (tensors, evicted) = evict_loop n (get_or (get n d.node_tensors) []) d.tensors [] in
    (record { tensors = tensors; node_tensors = remove n d.node_tensors }, evicted)

pub record DirectoryStats : Type 0 where
  pub total_tensors : ℕ
  pub total_placements : ℕ
  pub mutable_count : ℕ
  pub node_count : ℕ

unfoldable pub get_stats : TensorDirectory → DirectoryStats
get_stats d = record {
  total_tensors = length d.tensors;
  total_placements = sum (map (λ e. length e.placements) (values d.tensors));
  mutable_count = length (retain (λ e. e.mutable) (values d.tensors));
  node_count = length d.node_tensors;
}

find_on : NodeId → List PhysicalPlacement → Option PhysicalPlacement
find_on n [] = none
find_on n (p ∷ ps) = ite (ℕ_discrete p.node_id n) (some p) (find_on n ps)

abbrev or_err {ℓ} : {E A : Type ℓ} → Option A → E → Result E A
or_err none e = err e
or_err (some a) e = ok a

-- `transfer_tensor` up to `drop(tensors)`: the placement that it will add, of `length` bytes.
pub new_replica :
    TensorId → NodeId → NodeId → ℕ → TensorDirectory → Result DirectoryError PhysicalPlacement
unfolding find_on
new_replica t from to bytes d = do
  entry ← or_err (get t d.tensors) (tensor_not_found t)
  source ← or_err (find_on from entry.placements) not_on_source
  ok (record { node_id = to; device = source.device; offset = 0; length = bytes; role = replica })

unfoldable pub transfer_tensor :
    TensorId → NodeId → NodeId → ℕ → TensorDirectory → Result DirectoryError TensorDirectory
unfolding new_replica
transfer_tensor t from to bytes d = do p ← new_replica t from to bytes d; add_placement t p d

unfoldable pub get_tensors_for_replication : Uuid → TensorDirectory → List TensorEntry
get_tensors_for_replication session d =
    retain (λ e. ltb 1 (length e.placements) || e.mutable) (values d.tensors)

-- A call that changes the directory; a failed one leaves it.
pub data Op : Type 0 where
  register : Registration → DateTime → DateTime → Op
  access : TensorId → DateTime → Op
  add : TensorId → PhysicalPlacement → Op
  drop : TensorId → NodeId → Op
  evict : NodeId → Op
  transfer : TensorId → NodeId → NodeId → ℕ → Op

pub step : TensorDirectory → Op → TensorDirectory
step d (register r created accessed) = register_tensor r created accessed d
step d (access t now) = (get_tensor t now d).0
step d (add t p) = after d (add_placement t p d)
step d (drop t n) = after d (remove_placement t n d)
step d (evict n) = (evict_from_node n d).0
step d (transfer t from to bytes) = after d (transfer_tensor t from to bytes d)

pub run : TensorDirectory → List Op → TensorDirectory
run d [] = d
run d (o ∷ os) = run (step d o) os
