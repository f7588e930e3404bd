-- ===== src/Runtime/Chain.antt =====
-- Stages that run one after the other, each on a runtime of its own, over the interface of
-- Runtime/Contract.antt: each stage takes what the one before it gives.
use tensorgrid.Base.{
  sum_u64_wraps, sum, ℕ, ◌≡◌, refl, ap, ◌∙◌, true, Option, none, some, List, [], ◌∷◌, ok, err,
  arith, sum_u64, u64, All,
}
use tensorgrid.Types.{TensorHandle, StageExecution}
use tensorgrid.Runtime.{sizes, total_size}
use tensorgrid.Runtime.Contract.{Runtime, IsRuntime, passes}

-- A stage: its runtime, its number and the time that it measures.
pub record Stage : Type 1 where
  pub runtime : Runtime
  pub stage_id : ℕ
  pub elapsed : ℕ

abbrev request_of : Stage → List TensorHandle → StageExecution
request_of s ts = record { stage_id = s.stage_id; input_tensors = ts }

-- The inputs of the next stage; the run ends where a stage fails.
unfoldable pub run_chain : List Stage → List TensorHandle → Option (List TensorHandle)
run_chain [] ts = some ts
run_chain (s ∷ ss) ts = elim (s.runtime.execute_stage s.elapsed (request_of s ts)) [
  | ok a ↦ run_chain ss a.0.output_tensors
  | err e ↦ none
]

-- One tensor of the size of them all has the same total.
total_size-single :
    (ts us : List TensorHandle)
    → sizes us ≡ u64 (sum (sizes ts)) ∷ []
    → total_size us ≡ total_size ts
unfolding sum_u64
total_size-single ts us e =
    ap (sum_u64 0) e ∙ omega (arith, sum_u64_wraps 0 (sizes ts) (omega arith))

-- On runtimes that obey the laws and whose check, if they make one, passes, every run succeeds, and its
-- tensors have the total size, as a u64, of those that it started from.
pub run_chain-total :
    (ss : List Stage) (ts : List TensorHandle)
    → All (λ s. IsRuntime s.runtime × (passes s.runtime.check ≡ true)) ss
    → (us : List TensorHandle) × (run_chain ss ts ≡ some us) × (total_size us ≡ total_size ts)
unfolding run_chain
run_chain-total [] ts h = (ts, refl, refl)
run_chain-total (s ∷ ss) ts ((laws, on), h) =
    let (a, runs) = laws.executes s.elapsed (request_of s ts) on in
    let executed = laws.execute_ok s.elapsed (request_of s ts) a runs in
    let (us, rest, same) = run_chain-total ss a.0.output_tensors h in
    (us, rw runs rest, same ∙ total_size-single ts a.0.output_tensors executed.2)
