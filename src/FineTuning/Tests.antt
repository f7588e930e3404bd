-- ===== src/FineTuning/Tests.antt =====
-- services/fine-tuning/src/lib.rs: runs at concrete inputs.
use tensorgrid.Base.{List, ◌≡◌, refl, none, [], ◌∷◌, id_key, ℕ_discrete}
use tensorgrid.HashMap.{get}
use tensorgrid.Float.Ratio.{Ratio, ratio}
use tensorgrid.FineTuning.{
  Uuid, FineTuningConfig, JobStatus, running, paused, FineTuningJob, Jobs, waiting, at_top, Trainer,
  Service, turn, new_job, Steps, unchanged, and_then, turned, with_status,
}
use tensorgrid.FineTuning.Calls.{Call, starts, pauses, cancels}
use tensorgrid.FineTuning.Training.{IsDone, turns, alone, run_training-IsDone}
use tensorgrid.FineTuning.Pausing.{trainer_at, IsStuck, Steps-IsStuck}

abbrev config : FineTuningConfig Ratio
config = record {
  base_model = "llama";
  dataset_path = "/data";
  output_path = "/out";
  epochs = 3;
  batch_size = 8;
  learning_rate = (1, 1000);
  lora_rank = none;
  lora_alpha = none;
}

abbrev job_with : JobStatus → FineTuningJob Ratio
job_with status = with_status status (new_job ratio 4 config 0)

abbrev jobs_with : JobStatus → Jobs Ratio
jobs_with status = (4, job_with status) ∷ []

-- Job 4 is paused, job 5 is not there.
abbrev some_calls : List (Call × Uuid)
some_calls = (starts 9, 4) ∷ (pauses, 5) ∷ (cancels, 4) ∷ []

run_training-IsDone_example :
    IsDone ratio 4 3 (turns ratio (λ k. k) 0 8 (alone ratio 4 3 1 at_top (jobs_with running)))
unfolding get ℕ_discrete
run_training-IsDone_example =
    run_training-IsDone ratio (λ k. k) 3 4 3 (jobs_with running) (job_with running) refl refl refl

abbrev waiter : Trainer
waiter = record { job_id = 4; epochs = 3; next_epoch = 2; phase = waiting }

abbrev stuck : Service Ratio
stuck = record { jobs = jobs_with paused; trainers = waiter ∷ [] }

abbrev two_turns : Steps ratio stuck (turn ratio 2 0 (turn ratio 1 0 stuck))
two_turns = and_then (and_then (unchanged refl) (turned 1 0 refl)) (turned 2 0 refl)

Steps-IsStuck_example :
    IsStuck ratio 0 waiter (turn ratio 2 0 (turn ratio 1 0 stuck))
    × ((turn ratio 2 0 (turn ratio 1 0 stuck)).jobs ≡ jobs_with paused)
unfolding get ℕ_discrete trainer_at
Steps-IsStuck_example =
    Steps-IsStuck ratio 0 waiter two_turns
      (record { there = refl; waits = refl; job = job_with paused; found = refl; is_paused = refl })
