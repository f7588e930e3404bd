-- ===== src/Executor/Tests.antt =====
-- services/pipeline-executor/src/lib.rs: runs at concrete inputs.
use tensorgrid.Base.{◌≤◌, ◌≡◌, refl, some, List, [], ◌∷◌, arith, length, id_key, ℕ_discrete}
use tensorgrid.HashMap.{get, insert, modify}
use tensorgrid.HashMap.Entries.{AllEntries}
use tensorgrid.Float.Ratio.{Ratio, ratio}
use tensorgrid.Types.{ExecutionPlan, pipeline, stage_local}
use tensorgrid.Executor.{
  session_not_ready, running, paused, Executor, ExecutionRequest, Clock, execute, run_pipeline,
  initialize_session, pause_session, resume_session, new_session, Op, initialize, request, pause,
  resume, step, run, new,
}
use tensorgrid.Executor.Decoding.{count_up}
use tensorgrid.Executor.Execution.{tokens_of, execute-tokens, run_pipeline_stops}
use tensorgrid.Executor.Sessions.{
  status_of, next_status, step-next_status, IsUnfinished, run-IsUnfinished, answer, refusal, life,
  run-answer,
}
use tensorgrid.Executor.Stages.{IsAligned, run-IsAligned}

abbrev two_stages : ExecutionPlan Ratio
two_stages = record {
  model_id = "test-model";
  strategy = pipeline;
  estimated = record {
    load_seconds = (5, 1);
    prompt_tokens_per_second = (50, 1);
    decode_tokens_per_second = (15, 1);
  };
  stages =
      record { id = 0; node_id = 70; device = "cpu:0"; layers = 0 ∷ 1 ∷ []; weight_bytes = 1 }
      ∷ record { id = 1; node_id = 71; device = "cpu:0"; layers = 2 ∷ 3 ∷ []; weight_bytes = 1 }
      ∷ [];
  kv_cache = record { policy = stage_local; reserved_bytes = 64 };
}

abbrev frozen : Clock
frozen _ _ = 9

abbrev ask : ExecutionRequest Ratio
ask = record {
  session_id = 5;
  input_tokens = 1 ∷ 2 ∷ 998 ∷ [];
  max_tokens = 10;
  temperature = (7, 10);
}

abbrev opened : Executor Ratio
opened = (5, new_session 5 two_stages 0) ∷ []

execute-tokens_example :
    tokens_of (execute ratio frozen 100 ask opened) ≡ some (999 ∷ 0 ∷ 1 ∷ 2 ∷ [])
unfolding get ℕ_discrete count_up
execute-tokens_example =
    execute-tokens ratio frozen 100 ask opened (new_session 5 two_stages 0) refl refl (omega arith)

run_pipeline_stops_example : length (run_pipeline frozen 10 [] (998 ∷ [])).1 ≤ 10
run_pipeline_stops_example = (run_pipeline_stops frozen 10 [] (998 ∷ []) (omega arith)).0

abbrev one_life : List (Op Ratio)
one_life =
    initialize 5 two_stages 0
    ∷ request frozen 100 ask
    ∷ pause 5
    ∷ request frozen 100 ask
    ∷ resume 5
    ∷ []

one_life_running : status_of (run ratio new one_life) 5 ≡ some running
unfolding run step new initialize_session execute pause_session resume_session get insert modify
    ℕ_discrete
one_life_running = refl

step-next_status_example : status_of (step ratio opened (pause 5)) 5 ≡ some paused
unfolding get ℕ_discrete next_status
step-next_status_example = step-next_status ratio (pause 5) opened 5

run-IsUnfinished_example : IsUnfinished (status_of (run ratio new one_life) 5)
run-IsUnfinished_example = run-IsUnfinished ratio one_life 5

run-answer_example :
    answer ratio (run ratio new (initialize 5 two_stages 0 ∷ pause 5 ∷ [])) (request frozen 100 ask)
    ≡ some (session_not_ready paused)
unfolding refusal life next_status ℕ_discrete
run-answer_example =
    run-answer ratio (initialize 5 two_stages 0 ∷ pause 5 ∷ []) (request frozen 100 ask)

run-IsAligned_example : AllEntries IsAligned (run ratio new one_life)
run-IsAligned_example = run-IsAligned ratio one_life
