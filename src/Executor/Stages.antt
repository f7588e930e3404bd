-- ===== src/Executor/Stages.antt =====
-- services/pipeline-executor/src/lib.rs: the stage states of a session.
use tensorgrid.Base.{
  ℕ, zero, suc, ◌+◌, ◌≡◌, ◌∙◌, refl, sym, ap, Bool, true, false, some, List, [], ◌∷◌, ◌++◌, map,
  inl, inr, id_key, Option-cases, Bool-cases, All, ◌==◌,
}
use tensorgrid.HashMap.{get, modify}
use tensorgrid.HashMap.Entries.{AllEntries, insert-AllEntries, modify-AllEntries, remove-AllEntries}
use mathlib.Core.Option.{some-injective}
use tensorgrid.Float.{Float}
use tensorgrid.Types.{SessionId, NodeId, DateTime, StagePlan, ExecutionPlan}
use tensorgrid.Executor.{
  SessionStatus, running, paused, StageStatus, ready, idle, StageState, SessionState, Executor,
  ExecutionRequest, Clock, run_stages, decode_loop, run_pipeline, next_token, eos, new_stage,
  new_session, initialize_session, pause_session, resume_session, cancel_session, execute,
  with_status, with_stages, is_open, is_paused, Op, initialize, request, pause, resume, cancel,
  step, run, new,
}

-- The stage and the node of each stage state, and of each stage of a plan.
abbrev pub sites : List StageState → List (ℕ × NodeId)
sites = map (λ s. (s.stage_id, s.node_id))

abbrev pub plan_sites : List StagePlan → List (ℕ × NodeId)
plan_sites = map (λ s. (s.id, s.node_id))

-- No stage is left in the middle of its turn, or failed.
abbrev pub is_settled : StageStatus → Bool
is_settled idle = true
is_settled ready = true
is_settled StageStatus.completed = true
is_settled _ = false

abbrev pub AllSettled : List StageState → Type 0
AllSettled = All (λ s. is_settled s.status ≡ true)

pub record IsAligned {F : Type 0} (id : SessionId) (s : SessionState F) : Type 0 where
  pub named : s.session_id ≡ id
  pub on_plan : sites s.stage_states ≡ plan_sites s.plan.stages
  pub settled : AllSettled s.stage_states

sites-run_stages :
    (final : StageStatus) (now : ℕ → DateTime) (i : ℕ) (ss : List StageState)
    → sites (run_stages final now i ss) ≡ sites ss
unfolding run_stages
sites-run_stages final now i [] = refl
sites-run_stages final now i (s ∷ ss) =
    ap (◌∷◌ (s.stage_id, s.node_id)) (sites-run_stages final now (i + 1) ss)

run_stages-settled :
    (final : StageStatus) (now : ℕ → DateTime) (i : ℕ) (ss : List StageState)
    → is_settled final ≡ true
    → AllSettled (run_stages final now i ss)
unfolding run_stages
run_stages-settled final now i [] h = tt
run_stages-settled final now i (s ∷ ss) h = (h, run_stages-settled final now (i + 1) ss h)

decode_loop-stages :
    (clock : Clock) (round left : ℕ) (ss : List StageState) (tokens generated : List ℕ)
    → AllSettled ss
    → (sites (decode_loop clock round left ss tokens generated).0 ≡ sites ss)
      × AllSettled (decode_loop clock round left ss tokens generated).0
unfolding decode_loop
decode_loop-stages clock round zero ss tokens generated h = (refl, h)
decode_loop-stages clock round (suc left) ss tokens generated h =
    let token = next_token tokens in
    let ss' = run_stages ready (clock round) 0 ss in
    let same = sites-run_stages ready (clock round) 0 ss in
    let settled = run_stages-settled ready (clock round) 0 ss refl in
    let rest =
      decode_loop-stages clock (round + 1) left ss' (tokens ++ token ∷ []) (generated ++ token ∷ [])
        settled in
    elim (Bool-cases (token == eos)) [
      | inl e ↦ rw e (same, settled)
      | inr e ↦ rw e (rest.0 ∙ same, rest.1)
    ]

run_pipeline-stages :
    (clock : Clock) (max_tokens : ℕ) (ss : List StageState) (input : List ℕ)
    → (sites (run_pipeline clock max_tokens ss input).0 ≡ sites ss)
      × AllSettled (run_pipeline clock max_tokens ss input).0
unfolding run_pipeline
run_pipeline-stages clock max_tokens ss input =
    let ss' = run_stages StageStatus.completed (clock 0) 0 ss in
    let rest =
      decode_loop-stages clock 1 max_tokens ss' (input ++ input) []
        (run_stages-settled StageStatus.completed (clock 0) 0 ss refl) in
    (rest.0 ∙ sites-run_stages StageStatus.completed (clock 0) 0 ss, rest.1)

new_stages-sites : (ps : List StagePlan) → sites (map new_stage ps) ≡ plan_sites ps
new_stages-sites [] = refl
new_stages-sites (p ∷ ps) = ap (◌∷◌ (p.id, p.node_id)) (new_stages-sites ps)

new_stages-settled : (ps : List StagePlan) → AllSettled (map new_stage ps)
new_stages-settled [] = tt
new_stages-settled (p ∷ ps) = (refl, new_stages-settled ps)

module _ {F : Type 0} (fl : Float F) where
  new_session-IsAligned :
      (id : SessionId) (plan : ExecutionPlan F) (now : DateTime)
      → IsAligned id (new_session id plan now)
  new_session-IsAligned id plan now = record {
    named = refl;
    on_plan = new_stages-sites plan.stages;
    settled = new_stages-settled plan.stages;
  }

  with_status-AllEntries :
      (status : SessionStatus) (id : SessionId) (e : Executor F)
      → AllEntries IsAligned e
      → AllEntries IsAligned (modify id (with_status status) e)
  with_status-AllEntries status id e v =
      modify-AllEntries IsAligned id e v (with_status status) λ s h.
        let a = v id s h in record { named = a.named; on_plan = a.on_plan; settled = a.settled }

  execute-AllEntries :
      (clock : Clock) (r : ExecutionRequest F) (stages : SessionState F) (e : Executor F)
      → get r.session_id e ≡ some stages
      → AllEntries IsAligned e
      → AllEntries IsAligned (
          modify r.session_id
            (with_stages (run_pipeline clock r.max_tokens stages.stage_states r.input_tokens).0)
            e)
  execute-AllEntries clock r stages e here v =
      let moved = run_pipeline-stages clock r.max_tokens stages.stage_states r.input_tokens in
      modify-AllEntries IsAligned r.session_id e v _ λ s h.
        let a = v r.session_id s h in
        let same : stages ≡ s = some-injective stages s (sym here ∙ h) in
        record {
          named = a.named;
          on_plan = moved.0 ∙ ap (λ (u : SessionState F). sites u.stage_states) same ∙ a.on_plan;
          settled = moved.1;
        }

  step-AllEntries :
      (e : Executor F) (o : Op F) → AllEntries IsAligned e → AllEntries IsAligned (step fl e o)
  unfolding step initialize_session pause_session resume_session cancel_session execute
  step-AllEntries e (initialize id plan now) v =
      insert-AllEntries IsAligned id e v (new_session id plan now)
        (new_session-IsAligned id plan now)
  step-AllEntries e (request clock elapsed r) v = elim (Option-cases (get r.session_id e)) [
    | inl h ↦ rw (h, execute, step) v
    | inr (s, h) ↦ elim (Bool-cases (is_open s.status)) [
      | inl b ↦ rw (h, execute, step) (rw (b, execute, step) (execute-AllEntries clock r s e h v))
      | inr b ↦ rw (h, execute, step) (rw (b, execute, step) v)
    ]
  ]
  step-AllEntries e (pause id) v = elim (Option-cases (get id e)) [
    | inl h ↦ rw (h, pause_session, step) v
    | inr (s, h) ↦ rw (h, pause_session, step) (with_status-AllEntries paused id e v)
  ]
  step-AllEntries e (resume id) v = elim (Option-cases (get id e)) [
    | inl h ↦ rw (h, resume_session, step) v
    | inr (s, h) ↦ elim (Bool-cases (is_paused s.status)) [
      | inl b ↦
          rw (h, resume_session, step)
            (rw (b, resume_session, step) (with_status-AllEntries running id e v))
      | inr b ↦ rw (h, resume_session, step) (rw (b, resume_session, step) v)
    ]
  ]
  step-AllEntries e (cancel id) v = elim (Option-cases (get id e)) [
    | inl h ↦ rw (h, cancel_session, step) v
    | inr (s, h) ↦ rw (h, cancel_session, step) (remove-AllEntries IsAligned id e v)
  ]

  run-AllEntries :
      (e : Executor F) (os : List (Op F))
      → AllEntries IsAligned e
      → AllEntries IsAligned (run fl e os)
  unfolding run
  run-AllEntries e [] v = v
  run-AllEntries e (o ∷ os) v = run-AllEntries (step fl e o) os (step-AllEntries e o v)

  -- After any calls on a new executor, each session is stored under its own id, its stage states
  -- are those of its plan, stage by stage and node by node, and none of them is executing or failed.
  pub run-IsAligned : (os : List (Op F)) → AllEntries IsAligned (run fl new os)
  unfolding new get
  run-IsAligned os = run-AllEntries new os (λ id s h. cc)
