-- ===== src/Executor.antt =====
-- services/pipeline-executor/src/lib.rs: sessions, and the simulated pipeline that runs on them.
-- Each operation holds the lock on the sessions to its end, so it is one step.
pub mod Decoding
pub mod Sessions
pub mod Stages
pub mod Execution
pub mod Tests
use mathlib.Core.Option.{get_or}
use tensorgrid.Base.{
  ℕ, zero, suc, ◌+◌, ◌/◌, ◌%◌, String, ite, Bool, true, false, ◌||◌, Option, none, some, List, [],
  ◌∷◌, ◌++◌, map, length, last?, retain, ◌==◌, if◌then◌else◌, u32, Result, ok, err, after, id_key,
}
use tensorgrid.HashMap.{HashMap, values, get, insert, remove, modify}
use tensorgrid.Float.{Float}
use tensorgrid.Types.{NodeId, SessionId, DateTime, StagePlan, ExecutionPlan}

pub data SessionStatus : Type 0 where
  initializing running paused completed : SessionStatus
  failed : String → SessionStatus

pub data StageStatus : Type 0 where
  idle ready executing completed : StageStatus
  failed : String → StageStatus

pub record StageState : Type 0 where
  pub stage_id : ℕ  -- u32
  pub node_id : NodeId
  pub status : StageStatus
  pub input_tensors : List String
  pub output_tensors : List String
  pub last_execution : Option DateTime

pub record SessionState (F : Type 0) : Type 0 where
  pub session_id : SessionId
  pub plan : ExecutionPlan F
  pub stage_states : List StageState
  pub tensor_buffer : HashMap String (List ℕ)  -- u8
  pub status : SessionStatus
  pub created_at : DateTime

abbrev pub Executor : Type 0 → Type 0
Executor F = HashMap SessionId (SessionState F)

pub record ExecutionRequest (F : Type 0) : Type 0 where
  pub session_id : SessionId
  pub input_tokens : List ℕ  -- u32
  pub max_tokens : ℕ  -- u32
  pub temperature : F

pub record ExecutionResult (F : Type 0) : Type 0 where
  pub session_id : SessionId
  pub tokens : List ℕ  -- u32
  pub completion_time_ms : ℕ  -- u32
  pub tokens_per_second : F

pub data PipelineError : Type 0 where
  session_not_found : SessionId → PipelineError
  -- with the status that the message names
  session_not_ready : SessionStatus → PipelineError

-- The clock as it is read in phase 0, the prefill, and in the decode phases 1, 2, …, at each stage.
abbrev pub Clock : Type 0
Clock = ℕ → ℕ → DateTime

unfoldable pub new : {F : Type 0} → Executor F
new = []

abbrev pub new_stage : StagePlan → StageState
new_stage s = record {
  stage_id = s.id;
  node_id = s.node_id;
  status = idle;
  input_tensors = [];
  output_tensors = [];
  last_execution = none;
}

-- One stage's turn, which ends in the given status.
abbrev pub run_stage : StageStatus → DateTime → StageState → StageState
run_stage final now s =
    let begun = record s { status = executing } in
    record begun { status = final; last_execution = some now }

pub run_stages : StageStatus → (ℕ → DateTime) → ℕ → List StageState → List StageState
run_stages final now i [] = []
run_stages final now i (s ∷ ss) = run_stage final (now i) s ∷ run_stages final now (i + 1) ss

-- The prefill runs each stage once and hands the tokens back.
abbrev pub execute_prefill : Clock → List StageState → List ℕ → List StageState × List ℕ
execute_prefill clock stages tokens = (run_stages StageStatus.completed (clock 0) 0 stages, tokens)

-- `(context.last().unwrap_or(&0) + 1) % 1000` on u32.
abbrev pub next_token : List ℕ → ℕ
next_token context = u32 (get_or (last? context) 0 + 1) % 1000

abbrev pub execute_decode : Clock → ℕ → List StageState → List ℕ → List StageState × ℕ
execute_decode clock round stages context =
    (run_stages ready (clock round) 0 stages, next_token context)

abbrev pub eos : ℕ
eos = 2

-- The decode loop, for the rounds that are left: the stages, and the tokens generated so far.
pub decode_loop : Clock → ℕ → ℕ → List StageState → List ℕ → List ℕ → List StageState × List ℕ
decode_loop clock round zero stages tokens generated = (stages, generated)
decode_loop clock round (suc left) stages tokens generated =
    let (stages', token) = execute_decode clock round stages tokens in
    let generated' = generated ++ token ∷ [] in
    let rest = decode_loop clock (round + 1) left stages' (tokens ++ token ∷ []) generated' in
    if token == eos then (stages', generated') else rest

-- The two phases of `execute`: the stages, and the tokens generated.
pub run_pipeline : Clock → ℕ → List StageState → List ℕ → List StageState × List ℕ
run_pipeline clock max_tokens stages input =
    let (stages', prefill) = execute_prefill clock stages input in
    decode_loop clock 1 max_tokens stages' (input ++ prefill) []

-- A session that is initializing or running takes requests.
abbrev pub is_open : SessionStatus → Bool
is_open initializing = true
is_open running = true
is_open _ = false

abbrev pub is_paused : SessionStatus → Bool
is_paused paused = true
is_paused _ = false

abbrev pub is_running : SessionStatus → Bool
is_running running = true
is_running _ = false

module _ {F : Type 0} where
  abbrev pub new_session : SessionId → ExecutionPlan F → DateTime → SessionState F
  new_session id plan now = record {
    session_id = id;
    plan = plan;
    stage_states = map new_stage plan.stages;
    tensor_buffer = [];
    status = initializing;
    created_at = now;
  }

  unfoldable pub initialize_session :
      SessionId → ExecutionPlan F → DateTime → Executor F → Executor F
  initialize_session id plan now sessions = insert id (new_session id plan now) sessions

  abbrev pub with_status : SessionStatus → SessionState F → SessionState F
  with_status status s = record s { status = status }

  abbrev pub with_stages : List StageState → SessionState F → SessionState F
  with_stages stages s = record s { status = running; stage_states = stages }

  unfoldable pub pause_session : SessionId → Executor F → Result PipelineError (Executor F)
  pause_session id sessions = elim (get id sessions) [
    | none ↦ err (session_not_found id)
    | some s ↦ ok (modify id (with_status paused) sessions)
  ]

  unfoldable pub resume_session : SessionId → Executor F → Result PipelineError (Executor F)
  resume_session id sessions = elim (get id sessions) [
    | none ↦ err (session_not_found id)
    | some s ↦
        if is_paused s.status
        then ok (modify id (with_status running) sessions)
        else err (session_not_ready s.status)
  ]

  unfoldable pub cancel_session : SessionId → Executor F → Result PipelineError (Executor F)
  cancel_session id sessions = elim (get id sessions) [
    | none ↦ err (session_not_found id)
    | some s ↦ ok (remove id sessions)
  ]

  unfoldable pub get_session_status : SessionId → Executor F → Result PipelineError SessionStatus
  get_session_status id sessions = elim (get id sessions) [
    | none ↦ err (session_not_found id)
    | some s ↦ ok s.status
  ]

  -- `elapsed` is the run's duration in nanoseconds.
  unfoldable pub execute :
      Float F
      → Clock
      → ℕ
      → ExecutionRequest F
      → Executor F
      → Result PipelineError (Executor F × ExecutionResult F)
  execute fl clock elapsed r sessions = elim (get r.session_id sessions) [
    | none ↦ err (session_not_found r.session_id)
    | some s ↦
        let (stages, tokens) = run_pipeline clock r.max_tokens s.stage_states r.input_tokens in
        if is_open s.status
        then ok (
          modify r.session_id (with_stages stages) sessions,
          record {
            session_id = r.session_id;
            tokens = tokens;
            completion_time_ms = u32 (elapsed / 1_000_000);
            tokens_per_second = fl.div (fl.of_ℕ (length tokens)) (fl.as_secs elapsed);
          },
        )
        else err (session_not_ready s.status)
  ]

pub record ExecutorStats : Type 0 where
  pub total_sessions : ℕ
  pub running_sessions : ℕ
  pub paused_sessions : ℕ

unfoldable pub get_stats : {F : Type 0} → Executor F → ExecutorStats
get_stats sessions = record {
  total_sessions = length sessions;
  running_sessions = length (retain (λ s. is_running s.status) (values sessions));
  paused_sessions = length (retain (λ s. is_paused s.status) (values sessions));
}

-- A call on the executor, each with what it reads from outside.
pub data Op (F : Type 0) : Type 0 where
  initialize : SessionId → ExecutionPlan F → DateTime → Op F
  request : Clock → ℕ → ExecutionRequest F → Op F
  pause resume cancel : SessionId → Op F

module _ {F : Type 0} (fl : Float F) where
  pub step : Executor F → Op F → Executor F
  step e (initialize id plan now) = initialize_session id plan now e
  step e (request clock elapsed r) = elim (execute fl clock elapsed r e) [
    | ok (e', _) ↦ e'
    | err _ ↦ e
  ]
  step e (pause id) = after e (pause_session id e)
  step e (resume id) = after e (resume_session id e)
  step e (cancel id) = after e (cancel_session id e)

  pub run : Executor F → List (Op F) → Executor F
  run e [] = e
  run e (o ∷ os) = run (step e o) os
