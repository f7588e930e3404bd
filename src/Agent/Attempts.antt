-- ===== src/Agent/Attempts.antt =====
-- services/node-agent/src/main.rs: when the loop ends, by the count of attempts.
use tensorgrid.Base.{
  bind-ok, subst, ◌∙◌, sym, dec_lt, ◌<◌, ◌≡◌, refl, String, Option, none, some, List, [], ◌∷◌,
  Result, ok, err, arith, inl, inr, ◌⊎◌,
}
use mathlib.Core.Option
use mathlib.Core.Option.{none-ne-some, some-ne-none, some-injective}
use tensorgrid.Coordinator.{HeartbeatResponse}
use tensorgrid.Types.{Uuid, NodeId}
use tensorgrid.Agent.{
  NodeAgent, CoordinatorClient, AgentError, Registration, RegisterResponse, register, connect,
  accept,
}
use tensorgrid.Agent.Loop.{
  entered, round_with, rejoin, Loop, Progress, looping, gave_up, Round, round, rounds, beat_with,
  settle, register_with_retry, start, heartbeat_request,
}

-- While the loop runs there have been fewer than five attempts, and some just where the agent has no
-- client; it ends without a client, at the fifth.
unfoldable pub IsCounted : Progress → Type 0
IsCounted (looping s) =
    (s.reconnect_attempts < 5)
    × ((s.reconnect_attempts ≡ 0 × (c : CoordinatorClient) × (s.agent.coordinator_client ≡ some c))
        ⊎ (0 < s.reconnect_attempts × s.agent.coordinator_client ≡ none))
IsCounted (gave_up s) = (s.reconnect_attempts ≡ 5) × (s.agent.coordinator_client ≡ none)

settle-IsCounted :
    (r : Result AgentError HeartbeatResponse) (s : Loop) (c : CoordinatorClient)
    → s.agent.coordinator_client ≡ some c
    → s.reconnect_attempts ≡ 0
    → IsCounted (settle r s)
unfolding IsCounted
settle-IsCounted (ok x) s c has none_yet = (omega arith, inl (refl, c, has))
settle-IsCounted (err e) s c has none_yet = rw none_yet (omega arith, inr (omega arith, refl))

module _ {F : Type 0} where
  beat-IsCounted :
      (client : Option CoordinatorClient) (r : Round F) (s : Loop) (c : CoordinatorClient)
      → s.agent.coordinator_client ≡ some c
      → client ≡ some c
      → s.reconnect_attempts ≡ 0
      → IsCounted (beat_with client r s)
  beat-IsCounted none r s c has here none_yet = absurd (none-ne-some _ here)
  beat-IsCounted (some client) r s c has here none_yet =
      settle-IsCounted (r.respond s.node_id (heartbeat_request r s)) s c has none_yet

module _ (parse : String → Option Uuid) where
  pub accept-client :
      (a : NodeAgent) (client : CoordinatorClient) (x : RegisterResponse) (b : NodeAgent)
      → accept parse a client x ≡ ok b
      → b.coordinator_client ≡ some client
  accept-client a client x b e = ground arith

module _ {F : Type 0} (parse : String → Option Uuid) (print : Uuid → String) where
  pub register-client :
      (r : Registration F) (addr : String) (a b : NodeAgent)
      → register parse print r addr a ≡ ok b
      → b.coordinator_client ≡ some (connect addr)
  unfolding register
  register-client r addr a b e =
      let (capabilities, probed, rest) = bind-ok r.capabilities _ b e in
      let (response, answered, accepted) = bind-ok _ (accept parse a (connect addr)) b rest in
      accept-client parse a (connect addr) response b accepted

  rejoin-IsCounted :
      (answer : Result AgentError NodeAgent) (r : Round F) (s : Loop)
      → ((a : NodeAgent)
          → answer ≡ ok a
          → (c : CoordinatorClient) × (a.coordinator_client ≡ some c))
      → s.reconnect_attempts < 5
      → s.agent.coordinator_client ≡ none
      → IsCounted (rejoin answer r s)
  unfolding IsCounted
  rejoin-IsCounted (ok a) r s client few absent =
      let (c, has) = client a refl in
      beat-IsCounted a.coordinator_client r (record s { agent = a; reconnect_attempts = 0 }) c has
        has refl
  rejoin-IsCounted (err e) r s client few absent = elim (dec_lt s.reconnect_attempts 4) [
    | yes less ↦ ground (arith, less, absent)
    | no last ↦ ground (arith, last, few, absent)
  ]

  round_with-IsCounted :
      (client : Option CoordinatorClient) (r : Round F) (s : Loop)
      → s.agent.coordinator_client ≡ client
      → IsCounted (looping s)
      → IsCounted (round_with parse print client r s)
  unfolding IsCounted register_with_retry
  round_with-IsCounted (some c) r s has (few, inl (none_yet, d, present)) =
      beat-IsCounted s.agent.coordinator_client r s c has has none_yet
  round_with-IsCounted (some c) r s has (few, inr (some_yet, absent)) =
      absurd (some-ne-none c (sym has ∙ absent))
  round_with-IsCounted none r s has (few, state) =
      rejoin-IsCounted (register_with_retry parse print r.registration s.agent) r s
        (λ a e. (
          connect s.agent.coordinator_addr,
          register-client r.registration s.agent.coordinator_addr s.agent a e,
        ))
        few has

  pub rounds-IsCounted_from :
      (rs : List (Round F)) (p : Progress) → IsCounted p → IsCounted (rounds parse print rs p)
  unfolding rounds round
  rounds-IsCounted_from [] p h = h
  rounds-IsCounted_from (r ∷ rs) (gave_up s) h = h
  rounds-IsCounted_from (r ∷ rs) (looping s) h =
      rounds-IsCounted_from rs (round parse print r s)
        (round_with-IsCounted s.agent.coordinator_client r s refl h)

pub start-entered :
    (id : Option NodeId) (a : NodeAgent) (s : Loop)
    → Option.map (entered a) id ≡ some s
    → (j : NodeId) × (id ≡ some j) × (entered a j ≡ s)
start-entered none a s e = absurd (none-ne-some s e)
start-entered (some j) a s e = (j, refl, some-injective (entered a j) s e)

pub start-IsCounted :
    (a : NodeAgent) (s : Loop) (c : CoordinatorClient)
    → start a ≡ some s
    → a.coordinator_client ≡ some c
    → IsCounted (looping s)
unfolding IsCounted
start-IsCounted a s c begun has =
    let (id, set, begins) = start-entered a.node_id a s begun in
    subst (λ l. IsCounted (looping l)) begins (omega arith, inl (refl, c, has))

pub gave_up-IsCounted :
    (s : Loop)
    → IsCounted (gave_up s)
    → (s.reconnect_attempts ≡ 5) × (s.agent.coordinator_client ≡ none)
unfolding IsCounted
gave_up-IsCounted s h = h
