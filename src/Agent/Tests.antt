-- ===== src/Agent/Tests.antt =====
-- services/node-agent/src: the loop at concrete inputs.
use tensorgrid.Base.{
  id_key, length, ◌≡◌, refl, none, some, true, List, [], ◌∷◌, Option, ok, err, String, ite,
  String-discrete, arith,
}
use tensorgrid.HashMap.{get}
use tensorgrid.HashMap.Unique.{IsMap}
use tensorgrid.Float.Ratio.{Ratio}
use tensorgrid.Types.{Uuid, healthy}
use tensorgrid.Planner.Sample.{a_node}
use tensorgrid.Coordinator.{ClusterState, tick}
use tensorgrid.Agent.{NodeAgent, Registration, new, request_failed, register, connect, AgentError}
use tensorgrid.Agent.Machine.{new_manager, new_adapter, default_capabilities}
use tensorgrid.Agent.Loop.{
  round, register_with_retry, Loop, Round, entered, rounds, looping, gave_up, reached,
}
use tensorgrid.Agent.GivingUp.{rounds-gave_up}
use tensorgrid.Agent.Numbering.{IsNumbered, rounds-IsNumbered}
use tensorgrid.Agent.Forgotten.{Moment, together, together-forgotten}

abbrev print : Uuid → String
print id = "node"

abbrev parse : String → Option Uuid
parse t = ite (String-discrete t "node") (some 8) none

abbrev unregistered : NodeAgent
unregistered =
    new (new_manager {E = AgentError} (ok default_capabilities)) new_adapter 1 "localhost:8080"

-- Registered under 7.
abbrev agent : NodeAgent
agent = record unregistered {
  node_id = some 7;
  coordinator_client = some (connect "localhost:8080");
}

abbrev answering : Registration Ratio
answering = record {
  hostname = "a";
  capabilities = ok default_capabilities;
  resources = (a_node 7 healthy []).resources;
  respond = λ c q. ok (record { success = true; node_id = "node"; error_message = none });
}

abbrev silent : Round Ratio
silent = record {
  registration = record answering { respond = λ c q. err (request_failed "down") };
  resources = (a_node 7 healthy []).resources;
  respond = λ id q. err (request_failed "down");
}

abbrev good : Round Ratio
good = record {
  registration = answering;
  resources = (a_node 7 healthy []).resources;
  respond = λ id q. ok (record { success = true; error_message = none });
}

abbrev five : List (Round Ratio)
five = silent ∷ silent ∷ silent ∷ silent ∷ silent ∷ []

rounds-gave_up_example :
    (t : Loop) × (rounds parse print five
        (rounds parse print (good ∷ silent ∷ good ∷ []) (looping (entered agent 7)))
      ≡ gave_up t)
    × (t.reconnect_attempts ≡ 5)
    × (t.agent.coordinator_client ≡ none)
rounds-gave_up_example =
    rounds-gave_up parse print agent (entered agent 7) (connect "localhost:8080")
      (good ∷ silent ∷ good ∷ []) five refl refl
      (
        (λ c q. (request_failed "down", refl), λ id q. (request_failed "down", refl)),
        (
          (λ c q. (request_failed "down", refl), λ id q. (request_failed "down", refl)),
          (
            (λ c q. (request_failed "down", refl), λ id q. (request_failed "down", refl)),
            (
              (λ c q. (request_failed "down", refl), λ id q. (request_failed "down", refl)),
              ((λ c q. (request_failed "down", refl), λ id q. (request_failed "down", refl)), tt),
            ),
          ),
        ),
      )
      (omega arith)

-- The agent registers again as 8, and its heartbeats still go to 7.
rounds-IsNumbered_example :
    IsNumbered 7
      (reached (rounds parse print (good ∷ silent ∷ good ∷ []) (looping (entered agent 7)))).sent
rounds-IsNumbered_example =
    rounds-IsNumbered parse print agent (entered agent 7) 7 (good ∷ silent ∷ good ∷ []) refl refl

registers_again :
    (reached
      (rounds parse print (good ∷ silent ∷ good ∷ []) (looping (entered agent 7)))).agent.node_id
    ≡ some 8
unfolding rounds round register register_with_retry connect String-discrete
registers_again = refl

abbrev empty : ClusterState Ratio
empty = record { cluster_id = 1; nodes = [] }

abbrev moment : Moment Ratio
moment = record {
  events = tick 3 ∷ [];
  registration = answering;
  resources = (a_node 7 healthy []).resources;
  now = 5;
}

together-forgotten_example :
    let (p, after) =
      together parse print (moment ∷ moment ∷ []) (looping (entered agent 7)) empty in
    (t : Loop) × (p ≡ looping t)
    × (t.agent ≡ agent)
    × (length t.sent ≡ 2)
    × (get 7 after.nodes ≡ none)
unfolding get IsMap
together-forgotten_example =
    together-forgotten parse print (moment ∷ moment ∷ []) (entered agent 7) empty
      (connect "localhost:8080") refl ((tt, tt), ((tt, tt), tt)) tt refl

-- 2 seconds after the failed heartbeat, then 10, 15 and 20.
slept_before_giving_up : (reached (rounds parse print five (looping (entered agent 7)))).slept ≡ 47
unfolding rounds round register register_with_retry connect
slept_before_giving_up = refl
