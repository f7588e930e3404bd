-- ===== src/Agent/Loop.antt =====
-- services/node-agent/src/main.rs: `start_heartbeat_loop`, round by round.
use mathlib.Core.Option
use tensorgrid.Base.{
  ℕ, ◌+◌, ◌*◌, String, Bool, true, false, Option, none, some, List, [], ◌∷◌, leb, if◌then◌else◌,
  u32, u64, Result, ok, err,
}
use tensorgrid.Types.{Uuid, NodeId, NodeResources}
use tensorgrid.Coordinator.{HeartbeatRequest, HeartbeatResponse}
use tensorgrid.Agent.{NodeAgent, CoordinatorClient, AgentError, Registration, register}

abbrev pub max_reconnect_attempts : ℕ
max_reconnect_attempts = 5

-- A heartbeat that was sent, and whether an answer came.
pub record Sent : Type 0 where
  pub to : NodeId
  pub sequence : ℕ
  pub answered : Bool

-- The variables of the loop, with what it has done: the heartbeats that it sent, the last one first, and
-- the seconds that it slept.
pub record Loop : Type 0 where
  pub agent : NodeAgent
  pub node_id : NodeId
  pub sequence : ℕ  -- u64
  pub reconnect_attempts : ℕ  -- u32
  pub sent : List Sent
  pub slept : ℕ

pub data Progress : Type 0 where
  looping gave_up : Loop → Progress

abbrev pub reached : Progress → Loop
reached (looping s) = s
reached (gave_up s) = s

-- The variables where the loop is entered.
abbrev pub entered : NodeAgent → NodeId → Loop
entered a id = record {
  agent = a;
  node_id = id;
  sequence = 0;
  reconnect_attempts = 0;
  sent = [];
  slept = 0;
}

-- `None` is the panic of `expect("Node ID not set")`.
abbrev pub start : NodeAgent → Option Loop
start a = Option.map (entered a) a.node_id

-- What a round may ask for: a registration's answers, the readings of the machine, and the answer to a
-- heartbeat.
pub record Round (F : Type 0) : Type 0 where
  pub registration : Registration F
  pub resources : NodeResources F
  pub respond : NodeId → HeartbeatRequest F → Result AgentError HeartbeatResponse

abbrev pub sleep : ℕ → Loop → Progress
sleep secs s = looping (record s { slept = s.slept + secs })

-- One more attempt; the loop is left at the fifth.
abbrev pub failed_again : Loop → (Loop → Progress) → Progress
failed_again s continue =
    let attempts = u32 (s.reconnect_attempts + 1) in
    let counted = record s { reconnect_attempts = attempts } in
    if leb max_reconnect_attempts attempts then gave_up counted else continue counted

abbrev pub note : Bool → Loop → Loop
note answered s = record s {
  sent = record { to = s.node_id; sequence = s.sequence; answered = answered } ∷ s.sent;
}

-- The two arms of the match on a heartbeat's answer.
abbrev pub settle : Result AgentError HeartbeatResponse → Loop → Progress
settle (ok _) s =
    sleep 2 (record (note true s) { sequence = u64 (s.sequence + 1); reconnect_attempts = 0 })
settle (err e) s =
    failed_again (record (note false s) { agent = record s.agent { coordinator_client = none } })
      (sleep 2)

module _ {F : Type 0} where
  abbrev pub heartbeat_request : Round F → Loop → HeartbeatRequest F
  heartbeat_request r s = record { sequence = s.sequence; resources = r.resources }

  abbrev pub beat_with : Option CoordinatorClient → Round F → Loop → Progress
  beat_with none r s = sleep 2 s
  beat_with (some client) r s = settle (r.respond s.node_id (heartbeat_request r s)) s

  abbrev pub beat : Round F → Loop → Progress
  beat r s = beat_with s.agent.coordinator_client r s

  -- The rest of a round after an attempt to register.
  abbrev pub rejoin : Result AgentError NodeAgent → Round F → Loop → Progress
  rejoin (err e) r s = failed_again s (λ counted. sleep (5 * counted.reconnect_attempts) counted)
  rejoin (ok a) r s = beat r (record s { agent = a; reconnect_attempts = 0 })

module _ {F : Type 0} (parse : String → Option Uuid) (print : Uuid → String) where
  unfoldable pub register_with_retry : Registration F → NodeAgent → Result AgentError NodeAgent
  register_with_retry r a = register parse print r a.coordinator_addr a

  abbrev pub round_with : Option CoordinatorClient → Round F → Loop → Progress
  round_with (some client) r s = beat r s
  round_with none r s = rejoin (register_with_retry r.registration s.agent) r s

  unfoldable pub round : Round F → Loop → Progress
  round r s = round_with s.agent.coordinator_client r s

  unfoldable pub rounds : List (Round F) → Progress → Progress
  rounds [] p = p
  rounds (r ∷ rs) (gave_up s) = gave_up s
  rounds (r ∷ rs) (looping s) = rounds rs (round r s)
