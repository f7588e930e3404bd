-- ===== src/Executor/Sessions.antt =====
-- services/pipeline-executor/src/lib.rs: the session statuses as an automaton.
use mathlib.Core.Option
use tensorgrid.Base.{
  refl, ap, ◌∙◌, ℕ, ◌≡◌, ite, if_pos, if_neg, Option, none, some, List, [], ◌∷◌, arith, inl, inr,
  ℕ_discrete, if◌then◌else◌, Result, ok, err, after, id_key, Option-cases,
}
use tensorgrid.HashMap.{get, modify}
use tensorgrid.HashMap.Laws.{get-insert, get-modify, get-remove}
use tensorgrid.Float.{Float}
use tensorgrid.Types.{SessionId}
use tensorgrid.Executor.{
  SessionStatus, initializing, running, paused, completed, SessionState, Executor, ExecutionRequest,
  Clock, PipelineError, session_not_found, session_not_ready, is_open, is_paused,
  initialize_session, pause_session, resume_session, cancel_session, execute, with_status,
  with_stages, run_pipeline, new_session, Op, initialize, request, pause, resume, cancel, step, run,
  new,
}

abbrev pub opened : SessionStatus → SessionStatus
opened initializing = running
opened running = running
opened paused = paused
opened completed = completed
opened (SessionStatus.failed m) = SessionStatus.failed m

abbrev pub resumed : SessionStatus → SessionStatus
resumed paused = running
resumed s = s

module _ {F : Type 0} where
  abbrev pub status_of : Executor F → SessionId → Option SessionStatus
  status_of e id = Option.map (λ s. s.status) (get id e)

  -- The session that a call is about, and what it does to the status.
  abbrev pub target : Op F → SessionId
  target (initialize id _ _) = id
  target (request _ _ r) = r.session_id
  target (pause id) = id
  target (resume id) = id
  target (cancel id) = id

  unfoldable pub next_status : Op F → Option SessionStatus → Option SessionStatus
  next_status (initialize _ _ _) s = some initializing
  next_status (request _ _ _) s = Option.map opened s
  next_status (pause _) s = Option.map (λ _. paused) s
  next_status (resume _) s = Option.map resumed s
  next_status (cancel _) s = none

module _ {F : Type 0} (fl : Float F) where
  -- A call moves the status of its session as the automaton `next_status` says, and no other
  -- session's: initialization gives a new session the status initializing, a request makes one
  -- that is initializing or running run, pausing pauses any, resuming makes a paused one run,
  -- cancelling removes any, and every other call leaves the status as it is.
  pub step-next_status :
      (o : Op F) (e : Executor F) (id : SessionId)
      → status_of (step fl e o) id
        ≡ ite (ℕ_discrete (target o) id) (next_status o (status_of e id)) (status_of e id)
  unfolding step next_status initialize_session pause_session resume_session cancel_session execute
  step-next_status (initialize j plan now) e id =
      ground (arith, get-insert j id (new_session j plan now) e)
  step-next_status (request clock elapsed r) e id = elim (Option-cases (get r.session_id e)) [
    | inl h ↦ rw (h, execute, step) (ground arith)
    | inr (s, h) ↦
        let stages = (run_pipeline clock r.max_tokens s.stage_states r.input_tokens).0 in
        rw (h, execute, step) (ground (arith, get-modify r.session_id id (with_stages stages) e))
  ]
  step-next_status (pause j) e id = ground (arith, get-modify j id (with_status paused) e)
  step-next_status (resume j) e id = ground (arith, get-modify j id (with_status running) e)
  step-next_status (cancel j) e id = ground (arith, get-remove j id e)

-- The statuses that a session can have: none is `completed` or `failed`.
abbrev pub IsUnfinished : Option SessionStatus → Type 0
IsUnfinished none = Unit
IsUnfinished (some completed) = ⊥
IsUnfinished (some (SessionStatus.failed m)) = ⊥
IsUnfinished (some _) = Unit

module _ {F : Type 0} where
  next_status-IsUnfinished :
      (o : Op F) (s : Option SessionStatus) → IsUnfinished s → IsUnfinished (next_status o s)
  unfolding next_status
  next_status-IsUnfinished (initialize _ _ _) s h = tt
  next_status-IsUnfinished (request _ _ _) none h = h
  next_status-IsUnfinished (request _ _ _) (some initializing) h = h
  next_status-IsUnfinished (request _ _ _) (some running) h = h
  next_status-IsUnfinished (request _ _ _) (some paused) h = h
  next_status-IsUnfinished (request _ _ _) (some completed) h = h
  next_status-IsUnfinished (request _ _ _) (some (SessionStatus.failed m)) h = h
  next_status-IsUnfinished (pause _) none h = tt
  next_status-IsUnfinished (pause _) (some s) h = tt
  next_status-IsUnfinished (resume _) none h = h
  next_status-IsUnfinished (resume _) (some initializing) h = h
  next_status-IsUnfinished (resume _) (some running) h = h
  next_status-IsUnfinished (resume _) (some paused) h = h
  next_status-IsUnfinished (resume _) (some completed) h = h
  next_status-IsUnfinished (resume _) (some (SessionStatus.failed m)) h = h
  next_status-IsUnfinished (cancel _) s h = tt

module _ {F : Type 0} (fl : Float F) where
  step-IsUnfinished :
      (e : Executor F) (o : Op F)
      → ((id : SessionId) → IsUnfinished (status_of e id))
      → (id : SessionId) → IsUnfinished (status_of (step fl e o) id)
  step-IsUnfinished e o h id = rw (step-next_status fl o e id) (elim (ℕ_discrete (target o) id) [
    | yes p ↦
        rw (if_pos (ℕ_discrete (target o) id) p)
          (next_status-IsUnfinished o (status_of e id) (h id))
    | no p ↦ rw (if_neg (ℕ_discrete (target o) id) p) (h id)
  ])

  run-IsUnfinished_from :
      (e : Executor F) (os : List (Op F))
      → ((id : SessionId) → IsUnfinished (status_of e id))
      → (id : SessionId) → IsUnfinished (status_of (run fl e os) id)
  unfolding run
  run-IsUnfinished_from e [] h = h
  run-IsUnfinished_from e (o ∷ os) h =
      run-IsUnfinished_from (step fl e o) os (step-IsUnfinished e o h)

  -- After any calls on a new executor no session is completed or failed: a session that has run
  -- stays open.
  pub run-IsUnfinished :
      (os : List (Op F)) (id : SessionId) → IsUnfinished (status_of (run fl new os) id)
  unfolding new get
  run-IsUnfinished os = run-IsUnfinished_from new os (λ id. tt)

-- The error of a call, if it fails.
abbrev pub error_of : {A : Type 0} → Result PipelineError A → Option PipelineError
error_of (ok a) = none
error_of (err e) = some e

-- The error of a call, by the status of its session.
unfoldable pub refusal : {F : Type 0} → Op F → Option SessionStatus → Option PipelineError
refusal (initialize _ _ _) s = none
refusal (request _ _ r) none = some (session_not_found r.session_id)
refusal (request _ _ r) (some initializing) = none
refusal (request _ _ r) (some running) = none
refusal (request _ _ r) (some paused) = some (session_not_ready paused)
refusal (request _ _ r) (some completed) = some (session_not_ready completed)
refusal (request _ _ r) (some (SessionStatus.failed m)) =
    some (session_not_ready (SessionStatus.failed m))
refusal (pause id) none = some (session_not_found id)
refusal (pause id) (some s) = none
refusal (resume id) none = some (session_not_found id)
refusal (resume id) (some initializing) = some (session_not_ready initializing)
refusal (resume id) (some running) = some (session_not_ready running)
refusal (resume id) (some paused) = none
refusal (resume id) (some completed) = some (session_not_ready completed)
refusal (resume id) (some (SessionStatus.failed m)) =
    some (session_not_ready (SessionStatus.failed m))
refusal (cancel id) none = some (session_not_found id)
refusal (cancel id) (some s) = none

-- The automaton of one session over calls on any.
unfoldable pub life :
    {F : Type 0} → SessionId → Option SessionStatus → List (Op F) → Option SessionStatus
life id s [] = s
life id s (o ∷ os) = life id (ite (ℕ_discrete (target o) id) (next_status o s) s) os

module _ {F : Type 0} (fl : Float F) where
  -- The error that a call gives, if it fails.
  abbrev pub answer : Executor F → Op F → Option PipelineError
  answer e (initialize id plan now) = none
  answer e (request clock elapsed r) = error_of (execute fl clock elapsed r e)
  answer e (pause id) = error_of (pause_session id e)
  answer e (resume id) = error_of (resume_session id e)
  answer e (cancel id) = error_of (cancel_session id e)

  refusal-request :
      (clock : Clock) (elapsed : ℕ) (r : ExecutionRequest F) (s : SessionStatus)
      → refusal (request clock elapsed r) (some s)
        ≡ (if is_open s then none else some (session_not_ready s))
  unfolding refusal
  refusal-request clock elapsed r initializing = refl
  refusal-request clock elapsed r running = refl
  refusal-request clock elapsed r paused = refl
  refusal-request clock elapsed r completed = refl
  refusal-request clock elapsed r (SessionStatus.failed m) = refl

  refusal-resume :
      (id : SessionId) (s : SessionStatus)
      → refusal {F = F} (resume id) (some s)
        ≡ (if is_paused s then none else some (session_not_ready s))
  unfolding refusal
  refusal-resume id initializing = refl
  refusal-resume id running = refl
  refusal-resume id paused = refl
  refusal-resume id completed = refl
  refusal-resume id (SessionStatus.failed m) = refl

  answer-refusal : (e : Executor F) (o : Op F) → answer e o ≡ refusal o (status_of e (target o))
  unfolding refusal execute pause_session resume_session cancel_session
  answer-refusal e (initialize id plan now) = refl
  answer-refusal e (request clock elapsed r) = elim (Option-cases (get r.session_id e)) [
    | inl missing ↦ ground arith
    | inr (s, found) ↦ let row = refusal-request clock elapsed r s.status in ground arith
  ]
  answer-refusal e (pause id) = ground arith
  answer-refusal e (resume id) = elim (Option-cases (get id e)) [
    | inl missing ↦ ground arith
    | inr (s, found) ↦ let row = refusal-resume id s.status in ground arith
  ]
  answer-refusal e (cancel id) = ground arith

  run-life_from :
      (os : List (Op F)) (e : Executor F) (id : SessionId)
      → status_of (run fl e os) id ≡ life id (status_of e id) os
  unfolding run life
  run-life_from [] e id = refl
  run-life_from (o ∷ os) e id =
      run-life_from os (step fl e o) id ∙ ap (λ s. life id s os) (step-next_status fl o e id)

  -- After any calls on a new executor, the next call fails exactly as the table says for the status
  -- that the calls on its session alone have led to: a request wants a session that is initializing or
  -- running, `resume` a paused one, `pause` and `cancel` any. The error names the missing session or the
  -- status.
  pub run-answer :
      (os : List (Op F)) (o : Op F) → answer (run fl new os) o ≡ refusal o (life (target o) none os)
  unfolding new get
  run-answer os o =
      answer-refusal (run fl new os) o ∙ ap (refusal o) (run-life_from os new (target o))

-- A session that is paused and resumed is running, with the plan and the stages that it had; other
-- sessions are as they were.
pub resume-pause :
    {F : Type 0} (id j : SessionId) (e : Executor F) (s : SessionState F)
    → get id e ≡ some s
    → get j (after e (resume_session id (after e (pause_session id e))))
      ≡ ite (ℕ_discrete id j) (some (with_status running s)) (get j e)
unfolding pause_session resume_session
resume-pause id j e s h =
    let e' = modify id (with_status paused) e in
    rw (h, pause_session)
      (ground (
        arith,
        get-modify id id (with_status paused) e,
        get-modify id j (with_status paused) e,
        get-modify id j (with_status running) e',
      ))
