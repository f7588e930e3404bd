-- ===== src/Agent/Numbering.antt =====
-- services/node-agent/src/main.rs: the heartbeats that the loop sends, over any rounds.
use mathlib.Core.Option.{some-injective}
use tensorgrid.Base.{
  subst, ◌*◌, ◌∙◌, sym, inr, inl, Bool-cases, ℕ, suc, ◌+◌, ◌≡◌, refl, String, false, Option, none,
  some, List, [], ◌∷◌, Result, ok, err, arith, u64, u32, if◌then◌else◌, leb,
}
use tensorgrid.Types.{Uuid, NodeId}
use tensorgrid.Coordinator.{HeartbeatResponse}
use tensorgrid.Agent.{NodeAgent, CoordinatorClient, AgentError}
use tensorgrid.Agent.Loop.{
  reached, note, Loop, Sent, Progress, looping, gave_up, Round, round, round_with, rounds,
  beat_with, settle, rejoin, start, heartbeat_request, failed_again, sleep, register_with_retry,
}
use tensorgrid.Agent.Attempts.{start-entered}

abbrev pub answered_count : List Sent → ℕ
answered_count [] = 0
answered_count (x ∷ xs) = let n = answered_count xs in if x.answered then suc n else n

-- Every heartbeat went to this node, under the number of those before it that were answered.
abbrev pub IsNumbered : NodeId → List Sent → Type 0
IsNumbered id [] = Unit
IsNumbered id (x ∷ xs) = (x.to ≡ id) × (x.sequence ≡ u64 (answered_count xs)) × IsNumbered id xs

unfoldable KeepsCount : NodeId → Loop → Type 0
KeepsCount id s =
    (s.node_id ≡ id) × (s.sequence ≡ u64 (answered_count s.sent)) × IsNumbered id s.sent

failed_again-KeepsCount :
    (id : NodeId) (s : Loop) (secs : Loop → ℕ)
    → KeepsCount id s
    → KeepsCount id (reached (failed_again s (λ c. sleep (secs c) c)))
unfolding KeepsCount
failed_again-KeepsCount id s secs k = elim (Bool-cases (leb 5 (u32 (s.reconnect_attempts + 1)))) [
  | inl last ↦ rw last k
  | inr other ↦ rw other k
]

settle-KeepsCount :
    (id : NodeId) (answer : Result AgentError HeartbeatResponse) (s : Loop)
    → KeepsCount id s
    → KeepsCount id (reached (settle answer s))
unfolding KeepsCount
settle-KeepsCount id (ok x) s (to, number, before) =
    (to, omega (arith, number), (to, number, before))
settle-KeepsCount id (err e) s (to, number, before) =
    failed_again-KeepsCount id
      (record (note false s) { agent = record s.agent { coordinator_client = none } }) (λ c. 2)
      (to, number, (to, number, before))

module _ {F : Type 0} where
  beat_with-KeepsCount :
      (id : NodeId) (client : Option CoordinatorClient) (r : Round F) (s : Loop)
      → KeepsCount id s
      → KeepsCount id (reached (beat_with client r s))
  unfolding KeepsCount
  beat_with-KeepsCount id none r s k = k
  beat_with-KeepsCount id (some c) r s k =
      settle-KeepsCount id (r.respond s.node_id (heartbeat_request r s)) s k

  rejoin-KeepsCount :
      (id : NodeId) (answer : Result AgentError NodeAgent) (r : Round F) (s : Loop)
      → KeepsCount id s
      → KeepsCount id (reached (rejoin answer r s))
  unfolding KeepsCount
  rejoin-KeepsCount id (ok a) r s k =
      beat_with-KeepsCount id a.coordinator_client r
        (record s { agent = a; reconnect_attempts = 0 }) k
  rejoin-KeepsCount id (err e) r s k =
      failed_again-KeepsCount id s (λ c. 5 * c.reconnect_attempts) k

module _ {F : Type 0} (parse : String → Option Uuid) (print : Uuid → String) where
  round_with-KeepsCount :
      (id : NodeId) (client : Option CoordinatorClient) (r : Round F) (s : Loop)
      → KeepsCount id s
      → KeepsCount id (reached (round_with parse print client r s))
  round_with-KeepsCount id (some c) r s k = beat_with-KeepsCount id s.agent.coordinator_client r s k
  round_with-KeepsCount id none r s k =
      rejoin-KeepsCount id (register_with_retry parse print r.registration s.agent) r s k

  rounds-KeepsCount :
      (id : NodeId) (rs : List (Round F)) (p : Progress)
      → KeepsCount id (reached p)
      → KeepsCount id (reached (rounds parse print rs p))
  unfolding rounds round
  rounds-KeepsCount id [] p k = k
  rounds-KeepsCount id (r ∷ rs) (gave_up s) k = k
  rounds-KeepsCount id (r ∷ rs) (looping s) k =
      rounds-KeepsCount id rs (round parse print r s)
        (round_with-KeepsCount id s.agent.coordinator_client r s k)

-- After any rounds of the loop, every heartbeat that was sent went to the identifier that the agent had
-- when it entered the loop, also after it registered again, and its sequence number is the number, as
-- a u64, of the heartbeats before it that were answered.
pub rounds-IsNumbered :
    {F : Type 0} (parse : String → Option Uuid) (print : Uuid → String) (a : NodeAgent) (s : Loop)
    (id : NodeId) (rs : List (Round F))
    → start a ≡ some s
    → a.node_id ≡ some id
    → IsNumbered id (reached (rounds parse print rs (looping s))).sent
unfolding KeepsCount
rounds-IsNumbered parse print a s id rs begun known =
    let (j, set, begins) = start-entered a.node_id a s begun in
    let same = some-injective j id (sym set ∙ known) in
    let k = subst (KeepsCount id) begins (same, refl, tt) in
    (rounds-KeepsCount parse print id rs (looping s) k).2
