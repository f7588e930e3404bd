-- ===== src/FineTuning/Calls.antt =====
-- services/fine-tuning/src/lib.rs: the calls on a job by its status.
use mathlib.Core.Option
use tensorgrid.Base.{
  ◌≡◌, ite, Option, none, some, List, [], ◌∷◌, id_key, ℕ_discrete, Result, ok, err, after,
}
use tensorgrid.HashMap.{get}
use tensorgrid.Types.{Uuid, DateTime}
use tensorgrid.FineTuning.{
  JobStatus, pending, running, paused, completed, failed, cancelled, FineTuningError, job_not_found,
  invalid_state, Jobs, start_job, pause_job, resume_job, cancel_job, delete_job,
}

pub data Call : Type 0 where
  starts : DateTime → Call
  pauses resumes cancels deletes : Call

abbrev pub perform : {F : Type 0} → Call → Uuid → Jobs F → Result FineTuningError (Jobs F)
perform (starts now) id jobs = start_job now id jobs
perform pauses id jobs = pause_job id jobs
perform resumes id jobs = resume_job id jobs
perform cancels id jobs = cancel_job id jobs
perform deletes id jobs = delete_job id jobs

abbrev pub status_of : {F : Type 0} → Jobs F → Uuid → Option JobStatus
status_of jobs id = Option.map (λ job. job.status) (get id jobs)

-- The table of the calls: a call leads from a status to another, or to no job, or it is refused.
pub data Outcome : Type 0 where
  becomes : JobStatus → Outcome
  vanishes refused : Outcome

unfoldable pub table : Call → JobStatus → Outcome
table (starts now) pending = becomes running
table (starts now) running = refused
table (starts now) paused = becomes running
table (starts now) completed = refused
table (starts now) failed = refused
table (starts now) cancelled = refused
table pauses pending = refused
table pauses running = becomes paused
table pauses paused = refused
table pauses completed = refused
table pauses failed = refused
table pauses cancelled = refused
table resumes pending = refused
table resumes running = refused
table resumes paused = becomes running
table resumes completed = refused
table resumes failed = refused
table resumes cancelled = refused
table cancels pending = becomes cancelled
table cancels running = becomes cancelled
table cancels paused = becomes cancelled
table cancels completed = refused
table cancels failed = becomes cancelled
table cancels cancelled = refused
table deletes pending = vanishes
table deletes running = refused
table deletes paused = vanishes
table deletes completed = vanishes
table deletes failed = vanishes
table deletes cancelled = vanishes

abbrev pub moved : JobStatus → Outcome → Option JobStatus
moved s (becomes t) = some t
moved s vanishes = none
moved s refused = some s

abbrev refusal_of : JobStatus → Outcome → Option FineTuningError
refusal_of s refused = some (invalid_state s)
refusal_of s _ = none

-- The automaton of one job over calls on any jobs, and the error of one more call on it.
abbrev pub called : Call → Option JobStatus → Option JobStatus
called c none = none
called c (some s) = moved s (table c s)

abbrev pub refusal : Call → Uuid → Option JobStatus → Option FineTuningError
refusal c id none = some (job_not_found id)
refusal c id (some s) = refusal_of s (table c s)

unfoldable pub life : Uuid → Option JobStatus → List (Call × Uuid) → Option JobStatus
life j l [] = l
life j l ((c, id) ∷ calls) = life j (ite (ℕ_discrete id j) (called c l) l) calls

abbrev pub error_of : {A : Type 0} → Result FineTuningError A → Option FineTuningError
error_of (ok a) = none
error_of (err e) = some e

-- Calls one after the other: one that fails changes nothing.
unfoldable pub perform_all : {F : Type 0} → List (Call × Uuid) → Jobs F → Jobs F
perform_all [] jobs = jobs
perform_all ((c, id) ∷ calls) jobs = perform_all calls (after jobs (perform c id jobs))

module _ {F : Type 0} where
  Moves : Call → Uuid → Jobs F → Type 0
  Moves c id jobs =
      ((j : Uuid)
        → status_of (after jobs (perform c id jobs)) j
          ≡ ite (ℕ_discrete id j) (called c (status_of jobs id)) (status_of jobs j))
      × (error_of (perform c id jobs) ≡ refusal c id (status_of jobs id))
