-- ===== src/Executor/Execution.antt =====
-- services/pipeline-executor/src/lib.rs: `execute`.
use tensorgrid.Base.{
  ℕ, suc, ◌-◌, ◌^◌, ◌≤◌, ◌<◌, ◌≡◌, ap, min, Option, none, some, true, List, arith, length, last?,
  All, Result, ok, err, id_key,
}
use tensorgrid.HashMap.{get}
use tensorgrid.Float.{Float}
use tensorgrid.Executor.{
  Clock, StageState, SessionState, Executor, ExecutionRequest, ExecutionResult, PipelineError,
  execute, run_pipeline, is_open, eos,
}
use tensorgrid.Executor.Decoding.{
  count_up, until_eos, last_token, run_pipeline-tokens, length-count_up, count_up-lt, count_up-last,
}

abbrev pub tokens_of :
    {F : Type 0} → Result PipelineError (Executor F × ExecutionResult F) → Option (List ℕ)
tokens_of (ok (e, r)) = some r.tokens
tokens_of (err e) = none

-- On a session that is initializing or running, a request with input that ends below u32::MAX
-- succeeds and returns the numbers after the last input token (or after 0), counted modulo 1000,
-- up to the end-of-sequence token 2 or to `max_tokens` of them, whichever comes first.
pub execute-tokens :
    {F : Type 0} (fl : Float F) (clock : Clock) (elapsed : ℕ) (r : ExecutionRequest F)
    (e : Executor F) (s : SessionState F)
    → get r.session_id e ≡ some s
    → is_open s.status ≡ true
    → last_token r.input_tokens < 2 ^ 32 - 1
    → tokens_of (execute fl clock elapsed r e)
      ≡ some (
          count_up
            (last_token r.input_tokens)
            (min r.max_tokens (until_eos (last_token r.input_tokens))))
unfolding execute
execute-tokens fl clock elapsed r e s h open_status small =
    rw (h, execute)
      (rw (open_status, execute)
        (ap some (run_pipeline-tokens clock r.max_tokens s.stage_states r.input_tokens small)))

shape :
    (x max_tokens : ℕ) (ts : List ℕ)
    → ts ≡ count_up x (min max_tokens (until_eos x))
    → (length ts ≤ max_tokens)
      × All (λ t. t < 1000) ts
      × (length ts < max_tokens → last? ts ≡ some eos)
shape x max_tokens ts e = rw e (
  omega (arith, length-count_up x (min max_tokens (until_eos x))),
  count_up-lt x (min max_tokens (until_eos x)),
  λ short.
      let whole : min max_tokens (until_eos x) ≡ suc (until_eos x - 1) =
        omega (arith, length-count_up x (min max_tokens (until_eos x))) in
      rw whole (count_up-last x (until_eos x - 1) (omega arith)),
)

-- On input that ends below u32::MAX the pipeline generates at most `max_tokens` tokens, each below
-- 1000, and where it stops before `max_tokens` the last is the end-of-sequence token 2.
pub run_pipeline_stops :
    (clock : Clock) (max_tokens : ℕ) (stages : List StageState) (input : List ℕ)
    → last_token input < 2 ^ 32 - 1
    → let ts = (run_pipeline clock max_tokens stages input).1 in
      (length ts ≤ max_tokens)
      × All (λ t. t < 1000) ts
      × (length ts < max_tokens → last? ts ≡ some eos)
run_pipeline_stops clock max_tokens stages input small =
    shape (last_token input) max_tokens _ (run_pipeline-tokens clock max_tokens stages input small)
