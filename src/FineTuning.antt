-- ===== src/FineTuning.antt =====
-- services/fine-tuning/src/lib.rs: jobs, the calls on them, and the training tasks that run beside the
-- callers. A step is what happens between two points at which a task gives up the lock on the jobs or
-- waits. A task that waits for a paused job sleeps with its read guard `jobs_ref` alive, so that no one
-- can write in the meantime.
pub mod Calls
pub mod Training
pub mod Pausing
pub mod Tests
use tensorgrid.Base.{
  ℕ, zero, suc, ◌+◌, ◌≡◌, String, Bool, true, false, not, ◌&&◌, ◌||◌, Option, none, some, List, [],
  ◌∷◌, ◌++◌, length, retain, any, leb, if◌then◌else◌, Result, ok, err, after, id_key,
}
use tensorgrid.HashMap.{HashMap, get, insert, remove, modify, values}
use tensorgrid.Float.{Float}
use tensorgrid.Types.{Uuid, DateTime}

pub record FineTuningConfig (F : Type 0) : Type 0 where
  pub base_model : String
  pub dataset_path : String
  pub output_path : String
  pub epochs : ℕ  -- u32
  pub batch_size : ℕ  -- u32
  pub learning_rate : F
  pub lora_rank : Option ℕ  -- u32
  pub lora_alpha : Option F

pub data JobStatus : Type 0 where
  pending running paused completed failed cancelled : JobStatus

pub record FineTuningJob (F : Type 0) : Type 0 where
  pub id : Uuid
  pub config : FineTuningConfig F
  pub status : JobStatus
  pub progress : F
  pub epoch : ℕ  -- u32
  pub total_epochs : ℕ  -- u32
  pub loss : F
  pub created_at : DateTime
  pub started_at : Option DateTime
  pub completed_at : Option DateTime
  pub error : Option String

pub data FineTuningError : Type 0 where
  model_not_found dataset_not_found : String → FineTuningError
  job_not_found : Uuid → FineTuningError
  -- with the status that the message names
  invalid_state : JobStatus → FineTuningError

pub record ServiceStats : Type 0 where
  pub total_jobs : ℕ
  pub running_jobs : ℕ
  pub completed_jobs : ℕ
  pub failed_jobs : ℕ

abbrev pub Jobs : Type 0 → Type 0
Jobs F = HashMap Uuid (FineTuningJob F)

-- Where a training task is: at the head of its loop, in the loop that waits for a paused job, between
-- the check and the update of an epoch, past its loop, or returned.
pub data Phase : Type 0 where
  at_top waiting training finishing returned : Phase

pub record Trainer : Type 0 where
  pub job_id : Uuid
  pub epochs : ℕ  -- u32
  pub next_epoch : ℕ  -- u32
  pub phase : Phase

pub record Service (F : Type 0) : Type 0 where
  pub jobs : Jobs F
  pub trainers : List Trainer

unfoldable pub new : {F : Type 0} → Service F
new = record { jobs = []; trainers = [] }

abbrev pub can_start : JobStatus → Bool
can_start pending = true
can_start paused = true
can_start _ = false

abbrev pub is_running : JobStatus → Bool
is_running running = true
is_running _ = false

abbrev pub is_paused : JobStatus → Bool
is_paused paused = true
is_paused _ = false

abbrev pub is_completed : JobStatus → Bool
is_completed completed = true
is_completed _ = false

abbrev pub is_failed : JobStatus → Bool
is_failed failed = true
is_failed _ = false

abbrev pub is_over : JobStatus → Bool
is_over completed = true
is_over cancelled = true
is_over _ = false

module _ {F : Type 0} (fl : Float F) where
  abbrev pub new_job : Uuid → FineTuningConfig F → DateTime → FineTuningJob F
  new_job id config now = record {
    id = id;
    config = config;
    status = pending;
    progress = fl.of_ℕ 0;
    epoch = 0;
    total_epochs = config.epochs;
    loss = fl.of_ℕ 0;
    created_at = now;
    started_at = none;
    completed_at = none;
    error = none;
  }

  -- `known` is whether the registry has the base model, `exists` whether the dataset's path exists.
  unfoldable pub create_job :
      Bool → Bool → FineTuningConfig F → Uuid → DateTime → Jobs F → Result FineTuningError (Jobs F)
  create_job known exists config id now jobs =
      if not known
      then err (model_not_found config.base_model)
      else if not exists
      then err (dataset_not_found config.dataset_path)
      else ok (insert id (new_job id config now) jobs)

module _ {F : Type 0} where
  abbrev pub with_status : JobStatus → FineTuningJob F → FineTuningJob F
  with_status status job = record job { status = status }

  abbrev pub started : DateTime → FineTuningJob F → FineTuningJob F
  started now job = record job { status = running; started_at = some now }

  -- A change of a job that is there and whose status allows it.
  abbrev pub change :
      (JobStatus → Bool)
      → (Uuid → Jobs F → Jobs F)
      → Uuid
      → Jobs F
      → Result FineTuningError (Jobs F)
  change allows f id jobs = elim (get id jobs) [
    | none ↦ err (job_not_found id)
    | some job ↦ if allows job.status then ok (f id jobs) else err (invalid_state job.status)
  ]

  -- `start_job` up to the spawn.
  unfoldable pub start_job : DateTime → Uuid → Jobs F → Result FineTuningError (Jobs F)
  start_job now = change can_start (λ id. modify id (started now))

  unfoldable pub pause_job : Uuid → Jobs F → Result FineTuningError (Jobs F)
  pause_job = change is_running (λ id. modify id (with_status paused))

  unfoldable pub resume_job : Uuid → Jobs F → Result FineTuningError (Jobs F)
  resume_job = change is_paused (λ id. modify id (with_status running))

  unfoldable pub cancel_job : Uuid → Jobs F → Result FineTuningError (Jobs F)
  cancel_job = change (λ s. not (is_over s)) (λ id. modify id (with_status cancelled))

  unfoldable pub delete_job : Uuid → Jobs F → Result FineTuningError (Jobs F)
  delete_job = change (λ s. not (is_running s)) (λ id. remove id)

  unfoldable pub get_job : Uuid → Jobs F → Result FineTuningError (FineTuningJob F)
  get_job id jobs = elim (get id jobs) [ none ↦ err (job_not_found id) | some job ↦ ok job ]

  unfoldable pub list_jobs : Jobs F → List (FineTuningJob F)
  list_jobs jobs = values jobs

  abbrev pub count_status : (JobStatus → Bool) → Jobs F → ℕ
  count_status p jobs = length (retain (λ job. p job.status) (values jobs))

  unfoldable pub get_stats : Jobs F → ServiceStats
  get_stats jobs = record {
    total_jobs = length jobs;
    running_jobs = count_status is_running jobs;
    completed_jobs = count_status is_completed jobs;
    failed_jobs = count_status is_failed jobs;
  }

  -- The status check at the head of an epoch; a job that is gone does not stop the task.
  abbrev pub after_check : Option (FineTuningJob F) → Phase
  after_check none = training
  after_check (some job) = elim job.status [
    | cancelled ↦ returned
    | paused ↦ waiting
    | _ ↦ training
  ]

  -- One look of the loop that waits.
  abbrev pub after_look : Option (FineTuningJob F) → Phase
  after_look none = waiting
  after_look (some job) = elim job.status [
    | running ↦ training
    | cancelled ↦ returned
    | _ ↦ waiting
  ]

  module _ (fl : Float F) where
    abbrev pub share : ℕ → ℕ → F
    share epoch epochs = fl.div (fl.of_ℕ epoch) (fl.of_ℕ epochs)

    abbrev pub progressed : ℕ → ℕ → FineTuningJob F → FineTuningJob F
    progressed epoch epochs job = record job {
      epoch = epoch;
      progress = fl.mul (share epoch epochs) (fl.of_ℕ 100);
      loss = fl.mul (fl.of_ℕ 2) (fl.sub (fl.of_ℕ 1) (share epoch epochs));
    }

    abbrev pub finished : DateTime → FineTuningJob F → FineTuningJob F
    finished now job = record job {
      status = completed;
      progress = fl.of_ℕ 100;
      completed_at = some now;
    }

    -- A step of `run_training`; `blocked` says that a read guard keeps writers out.
    unfoldable pub run_training : DateTime → Bool → Trainer → Jobs F → Trainer × Jobs F
    run_training now blocked t jobs = elim t.phase [
      | at_top ↦
          if leb t.next_epoch t.epochs
          then (record t { phase = after_check (get t.job_id jobs) }, jobs)
          else (record t { phase = finishing }, jobs)
      | waiting ↦ (record t { phase = after_look (get t.job_id jobs) }, jobs)
      | training ↦ if blocked then (t, jobs) else (
        record t { phase = at_top; next_epoch = t.next_epoch + 1 },
        modify t.job_id (progressed t.next_epoch t.epochs) jobs,
      )
      | finishing ↦
          if blocked
          then (t, jobs)
          else (record t { phase = returned }, modify t.job_id (finished now) jobs)
      | returned ↦ (t, jobs)
    ]

abbrev pub is_waiting : Trainer → Bool
is_waiting t = elim t.phase [ waiting ↦ true | _ ↦ false ]

-- A waiting task holds its read guard, so that a writer must wait.
abbrev pub is_blocked : {F : Type 0} → Service F → Bool
is_blocked s = any is_waiting s.trainers

abbrev pub new_trainer : Uuid → ℕ → Trainer
new_trainer id epochs = record { job_id = id; epochs = epochs; next_epoch = 1; phase = at_top }

-- A call that writes, with what it reads from outside.
pub data Call (F : Type 0) : Type 0 where
  create : Bool → Bool → FineTuningConfig F → Uuid → DateTime → Call F
  start : DateTime → Uuid → Call F
  pause resume cancel delete : Uuid → Call F

module _ {F : Type 0} (fl : Float F) where
  abbrev pub epochs_of : Uuid → Jobs F → ℕ
  epochs_of id jobs = elim (get id jobs) [ none ↦ 0 | some job ↦ job.config.epochs ]

  -- The call on the jobs.
  unfoldable pub apply : Call F → Jobs F → Result FineTuningError (Jobs F)
  apply (create known exists config id now) jobs = create_job fl known exists config id now jobs
  apply (start now id) jobs = start_job now id jobs
  apply (pause id) jobs = pause_job id jobs
  apply (resume id) jobs = resume_job id jobs
  apply (cancel id) jobs = cancel_job id jobs
  apply (delete id) jobs = delete_job id jobs

  -- The tasks that a call spawns.
  abbrev pub spawned : Call F → Jobs F → List Trainer
  spawned (start now id) jobs = elim (start_job now id jobs) [
    | ok _ ↦ new_trainer id (epochs_of id jobs) ∷ []
    | err _ ↦ []
  ]
  spawned _ jobs = []

  unfoldable pub call : Call F → Service F → Service F
  call c s = record {
    jobs = after s.jobs (apply c s.jobs);
    trainers = s.trainers ++ spawned c s.jobs;
  }

  -- A step of the task at a position of the list.
  unfoldable pub turn_from : DateTime → Bool → ℕ → List Trainer → Jobs F → List Trainer × Jobs F
  turn_from now blocked i [] jobs = ([], jobs)
  turn_from now blocked zero (t ∷ ts) jobs =
      let (t', jobs') = run_training fl now blocked t jobs in (t' ∷ ts, jobs')
  turn_from now blocked (suc i) (t ∷ ts) jobs =
      let (ts', jobs') = turn_from now blocked i ts jobs in (t ∷ ts', jobs')

  unfoldable pub turn : DateTime → ℕ → Service F → Service F
  turn now i s =
      let (trainers, jobs) = turn_from now (is_blocked s) i s.trainers s.jobs in
      record { jobs = jobs; trainers = trainers }

  -- What can happen: a call where no read guard is held, or a step of a task.
  pub data Step (s t : Service F) : Type 0 where
    called : (c : Call F) → is_blocked s ≡ false → call c s ≡ t → Step s t
    turned : (now : DateTime) (i : ℕ) → turn now i s ≡ t → Step s t

  pub data Steps (s : Service F) : Service F → Type 0 where
    unchanged : {t : Service F} → s ≡ t → Steps s t
    and_then : {t u : Service F} → Steps s t → Step t u → Steps s u
