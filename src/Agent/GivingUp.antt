-- ===== src/Agent/GivingUp.antt =====
-- services/node-agent/src/main.rs: the loop gives up on a coordinator that it cannot reach.
use tensorgrid.Base.{
  subst, ap, ◌∙◌, dec_lt, ℕ, ◌+◌, ◌*◌, ◌≤◌, ◌<◌, ◌≡◌, refl, String, false, Option, none, some, List,
  [], ◌∷◌, Result, ok, err, arith, All, length, ◌>>=◌,
}
use tensorgrid.Coordinator.{HeartbeatRequest, HeartbeatResponse}
use tensorgrid.Types.{Uuid, NodeId}
use tensorgrid.Agent.{
  register_request, RegisterNodeRequest, NodeAgent, CoordinatorClient, AgentError, Registration,
  register, connect, accept,
}
use tensorgrid.Agent.Loop.{
  sleep, failed_again, round_with, rejoin, Loop, Progress, looping, gave_up, Round, round, rounds,
  beat_with, settle, register_with_retry, note, start, heartbeat_request,
}
use tensorgrid.Agent.Attempts.{gave_up-IsCounted, start-IsCounted, IsCounted, rounds-IsCounted_from}

-- The coordinator answers neither a registration nor a heartbeat.
abbrev pub IsUnreachable : {F : Type 0} → Round F → Type 0
IsUnreachable {F} r =
    ((c : CoordinatorClient) (q : RegisterNodeRequest F)
      → (e : AgentError) × (r.registration.respond c q ≡ err e))
    × ((id : NodeId) (q : HeartbeatRequest F) → (e : AgentError) × (r.respond id q ≡ err e))

unfoldable attempts_of : Progress → ℕ
attempts_of (looping s) = s.reconnect_attempts
attempts_of (gave_up s) = s.reconnect_attempts

bind_err {ℓ} :
    {E A B : Type ℓ} (r : Result E A) (f : A → Result E B)
    → ((a : A) → (e : E) × (f a ≡ err e))
    → (e : E) × ((r >>= f) ≡ err e)
bind_err (ok a) f h = h a
bind_err (err e) f h = (e, refl)

failed_again-attempts_of :
    (s : Loop) (secs : Loop → ℕ)
    → s.reconnect_attempts < 5
    → attempts_of (failed_again s (λ c. sleep (secs c) c)) ≡ s.reconnect_attempts + 1
unfolding attempts_of
failed_again-attempts_of s secs few = elim (dec_lt s.reconnect_attempts 4) [
  | yes less ↦ ground (arith, less)
  | no last ↦ ground (arith, last, few)
]

settle-attempts_of :
    (answer : Result AgentError HeartbeatResponse) (e : AgentError) (s : Loop)
    → answer ≡ err e
    → s.reconnect_attempts < 5
    → attempts_of (settle answer s) ≡ s.reconnect_attempts + 1
settle-attempts_of (ok x) e s failed few = absurd (ground arith)
settle-attempts_of (err x) e s failed few =
    failed_again-attempts_of
      (record (note false s) { agent = record s.agent { coordinator_client = none } }) (λ c. 2) few

rejoin-attempts_of :
    {F : Type 0} (answer : Result AgentError NodeAgent) (e : AgentError) (r : Round F) (s : Loop)
    → answer ≡ err e
    → s.reconnect_attempts < 5
    → attempts_of (rejoin answer r s) ≡ s.reconnect_attempts + 1
rejoin-attempts_of (ok a) e r s failed few = absurd (ground arith)
rejoin-attempts_of (err x) e r s failed few =
    failed_again-attempts_of s (λ c. 5 * c.reconnect_attempts) few

module _ {F : Type 0} (parse : String → Option Uuid) (print : Uuid → String) where
  register_fails :
      (r : Registration F) (addr : String) (a : NodeAgent)
      → ((c : CoordinatorClient) (q : RegisterNodeRequest F)
          → (e : AgentError) × (r.respond c q ≡ err e))
      → (e : AgentError) × (register parse print r addr a ≡ err e)
  unfolding register
  register_fails r addr a down = bind_err r.capabilities _ (λ capabilities.
      let (e, failed) = down (connect addr) (register_request parse print a r capabilities) in
      (e, ap (λ x. x >>= accept parse a (connect addr)) failed))

  round_with-attempts_of :
      (client : Option CoordinatorClient) (r : Round F) (s : Loop)
      → s.agent.coordinator_client ≡ client
      → IsUnreachable r
      → s.reconnect_attempts < 5
      → attempts_of (round_with parse print client r s) ≡ s.reconnect_attempts + 1
  unfolding register_with_retry
  round_with-attempts_of (some c) r s has down few =
      let (e, failed) = down.1 s.node_id (heartbeat_request r s) in
      ap (λ o. attempts_of (beat_with o r s)) has
      ∙ settle-attempts_of (r.respond s.node_id (heartbeat_request r s)) e s failed few
  round_with-attempts_of none r s has down few =
      let (e, failed) = register_fails r.registration s.agent.coordinator_addr s.agent down.0 in
      rejoin-attempts_of (register parse print r.registration s.agent.coordinator_addr s.agent) e r
        s failed few

  gives_up_from :
      (rs : List (Round F)) (p : Progress)
      → All IsUnreachable rs
      → IsCounted p
      → 5 ≤ attempts_of p + length rs
      → (s : Loop) × (rounds parse print rs p ≡ gave_up s)
  unfolding rounds round IsCounted attempts_of
  gives_up_from [] (gave_up s) down h enough = (s, refl)
  gives_up_from (r ∷ rs) (gave_up s) down h enough = (s, refl)
  gives_up_from [] (looping s) down h enough = absurd (omega (arith, h.0))
  gives_up_from (r ∷ rs) (looping s) down h enough =
      gives_up_from rs (round parse print r s) down.1
        (rounds-IsCounted_from parse print (r ∷ []) (looping s) h)
        (omega
          (arith, enough, round_with-attempts_of s.agent.coordinator_client r s refl down.0 h.0))

-- Once five rounds in a row find a coordinator that answers neither registrations nor heartbeats, the
-- loop has given up, whatever happened in the rounds before, if the agent was registered when it
-- entered the loop: it ends without a client and with five attempts counted.
pub rounds-gave_up :
    {F : Type 0} (parse : String → Option Uuid) (print : Uuid → String) (a : NodeAgent) (s : Loop)
    (c : CoordinatorClient) (before during : List (Round F))
    → start a ≡ some s
    → a.coordinator_client ≡ some c
    → All IsUnreachable during
    → 5 ≤ length during
    → (t : Loop) × (rounds parse print during (rounds parse print before (looping s)) ≡ gave_up t)
      × (t.reconnect_attempts ≡ 5)
      × (t.agent.coordinator_client ≡ none)
rounds-gave_up parse print a s c before during begun has down enough =
    let here =
      rounds-IsCounted_from parse print before (looping s) (start-IsCounted a s c begun has) in
    let (t, ended) =
      gives_up_from parse print during (rounds parse print before (looping s)) down here
        (omega (arith, enough)) in
    let counted =
      subst IsCounted ended
        (rounds-IsCounted_from parse print during (rounds parse print before (looping s)) here) in
    let (fifth, absent) = gave_up-IsCounted t counted in (t, ended, fifth, absent)
