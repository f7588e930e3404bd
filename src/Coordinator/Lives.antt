-- ===== src/Coordinator/Lives.antt =====
-- services/coordinator/src/main.rs and api.rs: each node's status and last heartbeat, event by event.
use mathlib.Core.Option
use tensorgrid.Base.{
  ℕ, ◌+◌, ◌-◌, ◌*◌, ◌/◌, ◌^◌, leb, ◌≡◌, ◌∙◌, refl, ap, ite, Bool, true, false, ◌&&◌, Option, none,
  some, List, [], ◌∷◌, arith, ltb, if◌then◌else◌, inl, inr, id_key, ℕ_discrete, String,
  Option-cases,
}
use tensorgrid.HashMap.{HashMap, get, remove}
use tensorgrid.HashMap.Laws.{get-insert, get-modify}
use tensorgrid.HashMap.Unique.{IsMap, insert-IsMap, modify-IsMap, remove-IsMap}
use tensorgrid.Types.{
  Uuid, NodeId, DateTime, PhysicalNode, NodeStatus, healthy, suspect, unavailable, draining,
  maintenance,
}
use tensorgrid.Coordinator.{
  ClusterState, Event, registered, heartbeat, tick, step, run, new, register_node, send_heartbeat,
  heartbeat_monitor, is_healthy_status, check_nodes, remove_nodes, silent_nodes, refresh, new_node,
  check_node,
}
use tensorgrid.Coordinator.Monitor.{checked, get-check_nodes, heartbeat_monitor-get}

-- A node's status and its last heartbeat, or that the cluster does not have it.
abbrev pub Life : Type 0
Life = Option (NodeStatus × DateTime)

abbrev pub life_of : {F : Type 0} → ClusterState F → NodeId → Life
life_of s id = Option.map (λ node. (node.status, node.last_heartbeat)) (get id s.nodes)

-- Only a healthy node becomes suspect.
abbrev pub suspected : NodeStatus → NodeStatus
suspected healthy = suspect
suspected suspect = suspect
suspected unavailable = unavailable
suspected draining = draining
suspected maintenance = maintenance

-- A round of the monitor on one life, by the nanoseconds since the last heartbeat.
unfoldable pub aged : DateTime → Life → Life
aged now none = none
aged now (some (status, last)) =
    if leb (31 * 10 ^ 9) (now - last)
    then none
    else if leb (11 * 10 ^ 9) (now - last)
    then some (suspected status, last)
    else some (status, last)

abbrev pub revived : DateTime → Life → Life
revived now none = none
revived now (some _) = some (healthy, now)

abbrev pub is_from : (String → Option Uuid) → NodeId → String → Bool
is_from parse id node_id = elim (parse node_id) [
  | none ↦ false
  | some j ↦ ite (ℕ_discrete j id) true false
]

late : (k d : ℕ) → ltb k (d / 10 ^ 9) ≡ leb ((k + 1) * 10 ^ 9) d
late k d = ground arith

suspected-if :
    (b : Bool) (status : NodeStatus)
    → (if b && is_healthy_status status then suspect else status)
      ≡ (if b then suspected status else status)
suspected-if true healthy = refl
suspected-if true suspect = refl
suspected-if true unavailable = refl
suspected-if true draining = refl
suspected-if true maintenance = refl
suspected-if false status = refl

aged-checked :
    {F : Type 0} (now : DateTime) (o : Option (PhysicalNode F))
    → Option.map (λ node. (node.status, node.last_heartbeat)) (checked now o)
      ≡ aged now (Option.map (λ node. (node.status, node.last_heartbeat)) o)
unfolding checked aged
aged-checked now none = refl
aged-checked now (some node) =
    let gone = late 30 (now - node.last_heartbeat) in
    let tired = late 10 (now - node.last_heartbeat) in
    let same = suspected-if (leb (11 * 10 ^ 9) (now - node.last_heartbeat)) node.status in
    ground arith

module _ {F : Type 0} (parse : String → Option Uuid) where
  -- The automaton of one node: registration starts its life, each of its heartbeats makes it healthy, a
  -- round of the monitor ages it.
  unfoldable pub next_life : NodeId → Life → Event F → Life
  next_life id l (registered r j now) = ite (ℕ_discrete j id) (some (healthy, now)) l
  next_life id l (heartbeat node_id r now) = if is_from parse id node_id then revived now l else l
  next_life id l (tick now) = aged now l

  unfoldable pub run_life : NodeId → Life → List (Event F) → Life
  run_life id l [] = l
  run_life id l (e ∷ es) = run_life id (next_life id l e) es

  remove_nodes-IsMap :
      (ids : List NodeId) (m : HashMap NodeId (PhysicalNode F))
      → IsMap m
      → IsMap (remove_nodes ids m)
  unfolding remove_nodes
  remove_nodes-IsMap [] m u = u
  remove_nodes-IsMap (id ∷ ids) m u = remove_nodes-IsMap ids (remove id m) (remove-IsMap id m u)

  check_nodes-none :
      (now : DateTime) (id : NodeId) (m : HashMap NodeId (PhysicalNode F))
      → get id m ≡ none
      → get id (check_nodes now m) ≡ none
  check_nodes-none now id m h = get-check_nodes now id m ∙ ap (Option.map (check_node now)) h

  check_nodes-IsMap :
      (now : DateTime) (m : HashMap NodeId (PhysicalNode F)) → IsMap m → IsMap (check_nodes now m)
  unfolding check_nodes IsMap
  check_nodes-IsMap now [] u = tt
  check_nodes-IsMap now ((j, node) ∷ m) u =
      (check_nodes-none now j m u.0, check_nodes-IsMap now m u.1)

  pub step-IsMap : (s : ClusterState F) (e : Event F) → IsMap s.nodes → IsMap (step parse s e).nodes
  unfolding step register_node send_heartbeat heartbeat_monitor
  step-IsMap s (registered r id now) u =
      insert-IsMap id (new_node parse r id now s.cluster_id) s.nodes u
  step-IsMap s (heartbeat node_id r now) u = elim (Option-cases (parse node_id)) [
    | inl invalid ↦ rw (invalid, step) u
    | inr (id, valid) ↦
        rw (valid, step)
          (elim (Option-cases (get id s.nodes)) [
            | inl missing ↦ rw missing u
            | inr (node, found) ↦ rw found (modify-IsMap id (refresh parse r now) s.nodes u)
          ])
  ]
  step-IsMap s (tick now) u =
      remove_nodes-IsMap (silent_nodes now s.nodes) (check_nodes now s.nodes)
        (check_nodes-IsMap now s.nodes u)

  pub step-next_life :
      (s : ClusterState F) (e : Event F) (id : NodeId)
      → IsMap s.nodes
      → life_of (step parse s e) id ≡ next_life id (life_of s id) e
  unfolding step register_node send_heartbeat next_life aged checked
  step-next_life s (registered r j now) id u =
      ground (arith, get-insert j id (new_node parse r j now s.cluster_id) s.nodes)
  step-next_life s (heartbeat node_id r now) id u = elim (Option-cases (parse node_id)) [
    | inl invalid ↦ ground arith
    | inr (j, valid) ↦ ground (arith, get-modify j id (refresh parse r now) s.nodes)
  ]
  step-next_life s (tick now) id u =
      ap (Option.map (λ node. (node.status, node.last_heartbeat)))
        (heartbeat_monitor-get now s id u)
      ∙ aged-checked now (get id s.nodes)

  run-run_life_from :
      (s : ClusterState F) (es : List (Event F)) (id : NodeId)
      → IsMap s.nodes
      → life_of (run parse s es) id ≡ run_life id (life_of s id) es
  unfolding run run_life
  run-run_life_from s [] id u = refl
  run-run_life_from s (e ∷ es) id u =
      run-run_life_from (step parse s e) es id (step-IsMap s e u)
      ∙ ap (λ l. run_life id l es) (step-next_life s e id u)

-- After any events on a new cluster, each node's status and last heartbeat are those of an automaton
-- that sees that node's own registrations and heartbeats and the rounds of the monitor only: a
-- registration starts its life healthy, a heartbeat makes it healthy again, and a round takes it away once
-- 31 seconds have passed since the last of these, and turns it from healthy to suspect once 11 have.
pub run-run_life :
    {F : Type 0} (parse : String → Option Uuid) (cluster_id : Uuid) (es : List (Event F))
    (id : NodeId)
    → life_of (run parse (new cluster_id) es) id ≡ run_life parse id none es
unfolding new get IsMap
run-run_life parse cluster_id es id = run-run_life_from parse (new cluster_id) es id tt
