-- ===== src/Coordinator/Monitor.antt =====
-- services/coordinator/src/main.rs: `heartbeat_monitor`.
use mathlib.Core.Option
use tensorgrid.Base.{
  ◌≡◌, refl, subst, Bool, false, ◌&&◌, Option, none, some, List, [], ◌∷◌, arith, ltb, if◌then◌else◌,
  id_key, ℕ_discrete, contains,
}
use tensorgrid.HashMap.{HashMap, get, remove}
use tensorgrid.HashMap.Laws.{get-remove}
use tensorgrid.HashMap.Unique.{IsMap}
use tensorgrid.Types.{NodeId, DateTime, PhysicalNode, suspect}
use tensorgrid.Coordinator.{
  ClusterState, seconds_since, is_healthy_status, with_status, is_silent, check_node, check_nodes,
  silent_nodes, remove_nodes, heartbeat_monitor,
}

module _ {F : Type 0} where
  -- What a round of the monitor should make of a node, by the whole seconds since its last heartbeat: it
  -- goes after more than 30, and one that is healthy turns suspect after more than 10.
  unfoldable pub checked : DateTime → Option (PhysicalNode F) → Option (PhysicalNode F)
  checked now none = none
  checked now (some node) =
      let seconds = seconds_since now node.last_heartbeat in
      if ltb 30 seconds
      then none
      else if ltb 10 seconds && is_healthy_status node.status
      then some (with_status suspect node)
      else some node

  get-remove_nodes :
      (id : NodeId) (ids : List NodeId) (m : HashMap NodeId (PhysicalNode F))
      → get id (remove_nodes ids m) ≡ (if contains id ids then none else get id m)
  unfolding remove_nodes contains
  get-remove_nodes id [] m = refl
  get-remove_nodes id (j ∷ ids) m =
      ground (arith, get-remove_nodes id ids (remove j m), get-remove j id m)

  pub get-check_nodes :
      (now : DateTime) (id : NodeId) (m : HashMap NodeId (PhysicalNode F))
      → get id (check_nodes now m) ≡ Option.map (check_node now) (get id m)
  unfolding check_nodes get
  get-check_nodes now id [] = refl
  get-check_nodes now id ((j, node) ∷ m) = ground (arith, get-check_nodes now id m)

  abbrev silent_at : DateTime → Option (PhysicalNode F) → Bool
  silent_at now none = false
  silent_at now (some node) = is_silent now node

  contains-silent_nodes :
      (now : DateTime) (id : NodeId) (m : HashMap NodeId (PhysicalNode F))
      → IsMap m
      → contains id (silent_nodes now m) ≡ silent_at now (get id m)
  unfolding silent_nodes contains get IsMap
  contains-silent_nodes now id [] u = refl
  contains-silent_nodes now id ((j, node) ∷ m) u =
      let rest = contains-silent_nodes now id m u.1 in
      elim (ℕ_discrete j id) [
        | yes e ↦ ground (arith, rest, subst (λ i. get i m ≡ none) e u.0)
        | no e ↦ ground (arith, rest)
      ]

-- A round of the monitor, on a map of nodes: a node without a heartbeat for more than 30 whole seconds
-- is gone; one without for more than 10 is suspect if it was healthy; every other node is as it was, and
-- none is new.
pub heartbeat_monitor-get :
    {F : Type 0} (now : DateTime) (s : ClusterState F) (id : NodeId)
    → IsMap s.nodes
    → get id (heartbeat_monitor now s).nodes ≡ checked now (get id s.nodes)
unfolding heartbeat_monitor checked check_node
heartbeat_monitor-get now s id u = ground (
  arith,
  get-remove_nodes id (silent_nodes now s.nodes) (check_nodes now s.nodes),
  get-check_nodes now id s.nodes,
  contains-silent_nodes now id s.nodes u,
)
