-- ===== src/Agent/Forgotten.antt =====
-- services/node-agent/src/main.rs with services/coordinator/src/api.rs: the loop and the coordinator
-- together, where every request arrives and is answered.
use mathlib.Core.Option
use tensorgrid.Base.{
  sym, suc, subst, inr, ◌+◌, inl, ap, ◌∙◌, length, if_neg, Option-cases, ℕ, ◌≡◌, ◌≢◌, refl, String,
  Option, none, some, List, [], ◌∷◌, ok, arith, All, id_key, ℕ_discrete,
}
use tensorgrid.HashMap.{get}
use tensorgrid.HashMap.Unique.{IsMap}
use tensorgrid.Types.{Uuid, NodeId, NodeResources, DateTime}
use tensorgrid.Coordinator.{
  ClusterState, Event, registered, heartbeat, tick, step, run, send_heartbeat,
}
use tensorgrid.Coordinator.Lives.{life_of, next_life, step-IsMap, step-next_life, aged}
use tensorgrid.Agent.{CoordinatorClient, Registration}
use tensorgrid.Agent.Loop.{
  reached, beat_with, round_with, settle, Loop, Progress, looping, gave_up, Round, round,
  heartbeat_request,
}

-- A round of the loop: what happens at the coordinator before it, the readings of the agent's machine,
-- and the time at which the heartbeat arrives.
pub record Moment (F : Type 0) : Type 0 where
  pub events : List (Event F)
  pub registration : Registration F
  pub resources : NodeResources F
  pub now : DateTime

-- What follows where the agent has a client, and what is there where it has none.
abbrev pub with_client {ℓ} : {A : Type ℓ} → Option CoordinatorClient → A → A → A
with_client none next here = here
with_client (some c) next here = next

module _ {F : Type 0} (parse : String → Option Uuid) (print : Uuid → String) where
  abbrev pub round_at : Moment F → ClusterState F → Round F
  round_at m cluster = record {
    registration = m.registration;
    resources = m.resources;
    respond = λ id q. ok (send_heartbeat parse (print id) q m.now cluster).1;
  }

  -- The heartbeat of a round as an event of the coordinator.
  abbrev pub arrival : Moment F → Loop → ClusterState F → Event F
  arrival m s cluster = heartbeat (print s.node_id) (heartbeat_request (round_at m cluster) s) m.now

  -- The loop and the cluster, up to a round that begins without a client.
  unfoldable pub together : List (Moment F) → Progress → ClusterState F → Progress × ClusterState F
  together [] p cluster = (p, cluster)
  together (m ∷ ms) (gave_up s) cluster = (gave_up s, cluster)
  together (m ∷ ms) (looping s) cluster =
      let before = run parse cluster m.events in
      let rest =
        together ms (round parse print (round_at m before) s)
          (step parse before (arrival m s before)) in
      with_client s.agent.coordinator_client rest (looping s, cluster)

-- An event other than the registration of this node.
abbrev pub IsOther : {F : Type 0} → NodeId → Event F → Type 0
IsOther id (registered r j now) = j ≢ id
IsOther id (heartbeat node_id r now) = Unit
IsOther id (tick now) = Unit

module _ {F : Type 0} (parse : String → Option Uuid) where
  IsAbsent : NodeId → ClusterState F → Type 0
  IsAbsent id cluster = IsMap cluster.nodes × (life_of cluster id ≡ none)

  next_life-none : (id : NodeId) (e : Event F) → IsOther id e → next_life parse id none e ≡ none
  unfolding next_life aged
  next_life-none id (registered r j now) other = if_neg (ℕ_discrete j id) other _ _
  next_life-none id (heartbeat node_id r now) other = ground arith
  next_life-none id (tick now) other = refl

  step-IsAbsent :
      (id : NodeId) (e : Event F) (cluster : ClusterState F)
      → IsOther id e
      → IsAbsent id cluster
      → IsAbsent id (step parse cluster e)
  unfolding IsAbsent
  step-IsAbsent id e cluster other (u, absent) = (
    step-IsMap parse cluster e u,
    step-next_life parse cluster e id u
        ∙ ap (λ l. next_life parse id l e) absent
        ∙ next_life-none id e other,
  )

  run-IsAbsent :
      (id : NodeId) (es : List (Event F)) (cluster : ClusterState F)
      → All (IsOther id) es
      → IsAbsent id cluster
      → IsAbsent id (run parse cluster es)
  unfolding run
  run-IsAbsent id [] cluster others absent = absent
  run-IsAbsent id (e ∷ es) cluster others absent =
      run-IsAbsent id es (step parse cluster e) others.1
        (step-IsAbsent id e cluster others.0 absent)

  absent-none :
      (id : NodeId) (cluster : ClusterState F)
      → life_of cluster id ≡ none
      → get id cluster.nodes ≡ none
  absent-none id cluster absent = elim (Option-cases (get id cluster.nodes)) [
    | inl missing ↦ missing
    | inr (node, found) ↦ absurd (ground (arith, absent, found))
  ]

module _ {F : Type 0} (parse : String → Option Uuid) (print : Uuid → String) where
  -- The agent as it is, a heartbeat for each round, and no node.
  unfoldable IsStill : ℕ → Loop → Progress × ClusterState F → Type 0
  IsStill n s (p, cluster) =
      (t : Loop) × (p ≡ looping t)
      × (t.agent ≡ s.agent)
      × (length t.sent ≡ n + length s.sent)
      × (get s.node_id cluster.nodes ≡ none)

  round-answered :
      (m : Moment F) (s : Loop) (cluster : ClusterState F) (c : CoordinatorClient)
      → s.agent.coordinator_client ≡ some c
      → round parse print (round_at parse print m cluster) s
        ≡ settle
            (ok
              (send_heartbeat parse
                (print s.node_id)
                (heartbeat_request (round_at parse print m cluster) s)
                m.now
                cluster).1)
            s
  unfolding round
  round-answered m s cluster c has =
      let r = round_at parse print m cluster in
      ap (λ o. round_with parse print o r s) has ∙ ap (λ o. beat_with o r s) has

  together-IsStill :
      (ms : List (Moment F)) (s : Loop) (cluster : ClusterState F) (c : CoordinatorClient)
      → s.agent.coordinator_client ≡ some c
      → All (λ m. All (IsOther s.node_id) m.events) ms
      → IsAbsent parse s.node_id cluster
      → IsStill (length ms) s (together parse print ms (looping s) cluster)
  unfolding together IsStill IsAbsent
  together-IsStill [] s cluster c has others absent =
      (s, refl, refl, omega arith, absent-none parse s.node_id cluster absent.1)
  together-IsStill (m ∷ ms) s cluster c has others absent =
      let before = run parse cluster m.events in
      let e = arrival parse print m s before in
      let after = step parse before e in
      let answer =
        (send_heartbeat parse (print s.node_id)
          (heartbeat_request (round_at parse print m before) s) m.now before).1 in
      let t = reached (settle (ok answer) s) in
      let lost =
        step-IsAbsent parse s.node_id e before tt
          (run-IsAbsent parse s.node_id m.events cluster others.0 absent) in
      let (u, goes_on, same, count, gone) = together-IsStill ms t after c has others.1 lost in
      let next =
        together parse print ms (round parse print (round_at parse print m before) s) after in
      let still =
        subst (λ q. IsStill (suc (length ms)) s (together parse print ms q after))
          (sym (round-answered m s before c has)) (u, goes_on, same, omega (arith, count), gone) in
      subst (λ o. IsStill (suc (length ms)) s (with_client o next (looping s, cluster))) (sym has)
        still

-- Once the coordinator has lost a node and no registration brings its identifier back, the agent goes
-- on as it is: after any rounds in which the coordinator answers each heartbeat, whatever else happens
-- there, the loop still runs with the client and identifier that the agent had, it has sent one more
-- heartbeat for each round, and the coordinator still does not have the node.
pub together-forgotten :
    {F : Type 0} (parse : String → Option Uuid) (print : Uuid → String) (ms : List (Moment F))
    (s : Loop) (cluster : ClusterState F) (c : CoordinatorClient)
    → s.agent.coordinator_client ≡ some c
    → All (λ m. All (IsOther s.node_id) m.events) ms
    → IsMap cluster.nodes
    → get s.node_id cluster.nodes ≡ none
    → let (p, after) = together parse print ms (looping s) cluster in
      (t : Loop) × (p ≡ looping t)
      × (t.agent ≡ s.agent)
      × (length t.sent ≡ length ms + length s.sent)
      × (get s.node_id after.nodes ≡ none)
unfolding IsStill IsAbsent
together-forgotten parse print ms s cluster c has others u missing =
    together-IsStill parse print ms s cluster c has others (u, ap (Option.map _) missing)
