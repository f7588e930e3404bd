-- ===== src/FineTuning/Training.antt =====
-- services/fine-tuning/src/lib.rs: `run_training` with no calls beside it.
use tensorgrid.Base.{
  ℕ, zero, suc, ◌+◌, ◌*◌, ◌≡◌, ◌≤◌, ◌∙◌, refl, sym, ap, subst, true, false, some, [], ◌∷◌, arith,
  id_key, leb,
}
use tensorgrid.HashMap.{get, modify}
use tensorgrid.HashMap.Laws.{get-modify}
use tensorgrid.Float.{Float}
use tensorgrid.Types.{Uuid, DateTime}
use tensorgrid.FineTuning.{
  running, completed, FineTuningJob, Jobs, Phase, at_top, training, finishing, returned, Service,
  run_training, after_check, turn_from, turn, progressed, finished,
}

module _ {F : Type 0} (fl : Float F) where
  -- The only task takes so many steps in a row, each at the next time of the clock.
  unfoldable pub turns : (ℕ → DateTime) → ℕ → ℕ → Service F → Service F
  turns clock k zero s = s
  turns clock k (suc n) s = turns clock (k + 1) n (turn fl (clock k) 0 s)

  abbrev pub alone : Uuid → ℕ → ℕ → Phase → Jobs F → Service F
  alone id epochs next phase jobs = record {
    jobs = jobs;
    trainers = record { job_id = id; epochs = epochs; next_epoch = next; phase = phase } ∷ [];
  }

  -- The job is completed, with its last epoch and all progress.
  pub IsDone : Uuid → ℕ → Service F → Type 0
  IsDone id epochs s =
      (job : FineTuningJob F) × (get id s.jobs ≡ some job)
      × (job.status ≡ completed)
      × (job.epoch ≡ epochs)
      × (job.progress ≡ fl.of_ℕ 100)

  check-running : (job : FineTuningJob F) → job.status ≡ running → after_check (some job) ≡ training
  check-running job r = rw r refl

  check_turn :
      (now : DateTime) (id : Uuid) (epochs next : ℕ) (jobs : Jobs F) (job : FineTuningJob F)
      → next ≤ epochs
      → get id jobs ≡ some job
      → job.status ≡ running
      → turn fl now 0 (alone id epochs next at_top jobs) ≡ alone id epochs next training jobs
  unfolding turn turn_from run_training
  check_turn now id epochs next jobs job low found r =
      let inside : leb next epochs ≡ true = ground arith in
      rw inside (ap (λ p. alone id epochs next p jobs) (ap after_check found ∙ check-running job r))

  train_turn :
      (now : DateTime) (id : Uuid) (epochs next : ℕ) (jobs : Jobs F)
      → turn fl now 0 (alone id epochs next training jobs)
        ≡ alone id epochs (next + 1) at_top (modify id (progressed fl next epochs) jobs)
  unfolding turn turn_from run_training
  train_turn now id epochs next jobs = refl

  leave_turn :
      (now : DateTime) (id : Uuid) (epochs : ℕ) (jobs : Jobs F)
      → turn fl now 0 (alone id epochs (epochs + 1) at_top jobs)
        ≡ alone id epochs (epochs + 1) finishing jobs
  unfolding turn turn_from run_training
  leave_turn now id epochs jobs =
      let outside : leb (epochs + 1) epochs ≡ false = ground arith in rw outside refl

  finish_turn :
      (now : DateTime) (id : Uuid) (epochs next : ℕ) (jobs : Jobs F)
      → turn fl now 0 (alone id epochs next finishing jobs)
        ≡ alone id epochs next returned (modify id (finished fl now) jobs)
  unfolding turn turn_from run_training
  finish_turn now id epochs next jobs = refl

  get-modify_same :
      (id : Uuid) (f : FineTuningJob F → FineTuningJob F) (jobs : Jobs F) (job : FineTuningJob F)
      → get id jobs ≡ some job
      → get id (modify id f jobs) ≡ some (f job)
  get-modify_same id f jobs job found = ground (arith, get-modify id id f jobs)

  -- The steps of so many epochs, and of the end.
  steps_for : ℕ → ℕ
  steps_for zero = 2
  steps_for (suc left) = suc (suc (steps_for left))

  steps_for_eq : (left : ℕ) → steps_for left ≡ 2 * left + 2
  unfolding steps_for
  steps_for_eq zero = refl
  steps_for_eq (suc left) = omega (arith, steps_for_eq left)

  finish-IsDone :
      (clock : ℕ → DateTime) (k : ℕ) (id : Uuid) (epochs : ℕ) (jobs : Jobs F)
      (job : FineTuningJob F)
      → get id jobs ≡ some job
      → job.epoch ≡ epochs
      → IsDone id epochs (turns clock k 2 (alone id epochs (epochs + 1) at_top jobs))
  unfolding turns IsDone
  finish-IsDone clock k id epochs jobs job found e =
      let done =
        ap (turn fl (clock (k + 1)) 0) (leave_turn (clock k) id epochs jobs)
        ∙ finish_turn (clock (k + 1)) id epochs (epochs + 1) jobs in
      let f = finished fl (clock (k + 1)) in
      (f job, ap (λ s. get id s.jobs) done ∙ get-modify_same id f jobs job found, refl, e, refl)

  steps_for-IsDone :
      (clock : ℕ → DateTime) (left k : ℕ) (id : Uuid) (epochs next : ℕ) (jobs : Jobs F)
      (job : FineTuningJob F)
      → get id jobs ≡ some job
      → job.status ≡ running
      → job.epoch + 1 ≡ next
      → job.epoch + left ≡ epochs
      → IsDone id epochs (turns clock k (steps_for left) (alone id epochs next at_top jobs))
  unfolding turns steps_for
  steps_for-IsDone clock zero k id epochs next jobs job found r e l =
      subst (λ n. IsDone id epochs (turns clock k 2 (alone id epochs n at_top jobs))) (omega arith)
        (finish-IsDone clock k id epochs jobs job found (omega arith))
  steps_for-IsDone clock (suc left) k id epochs next jobs job found r e l =
      let f = progressed fl next epochs in
      let epoch =
        ap (turn fl (clock (k + 1)) 0)
          (check_turn (clock k) id epochs next jobs job (omega arith) found r)
        ∙ train_turn (clock (k + 1)) id epochs next jobs in
      subst (λ s. IsDone id epochs (turns clock (k + 1 + 1) (steps_for left) s)) (sym epoch)
        (steps_for-IsDone clock left (k + 1 + 1) id epochs (next + 1) (modify id f jobs) (f job)
          (get-modify_same id f jobs job found) r refl (omega arith))

-- A task that no call disturbs, of a running job whose last finished epoch is the one before its next,
-- completes the job in two steps for each epoch that is left and two more: the job then has its last
-- epoch, a progress of 100 and the status completed.
pub run_training-IsDone :
    {F : Type 0} (fl : Float F) (clock : ℕ → DateTime) (left : ℕ) (id : Uuid) (epochs : ℕ)
    (jobs : Jobs F) (job : FineTuningJob F)
    → get id jobs ≡ some job
    → job.status ≡ running
    → job.epoch + left ≡ epochs
    → IsDone fl id epochs
        (turns fl clock 0 (2 * left + 2) (alone fl id epochs (job.epoch + 1) at_top jobs))
run_training-IsDone fl clock left id epochs jobs job found r e =
    subst
      (λ n.
        IsDone fl id epochs (turns fl clock 0 n (alone fl id epochs (job.epoch + 1) at_top jobs)))
      (steps_for_eq fl left)
      (steps_for-IsDone fl clock left 0 id epochs (job.epoch + 1) jobs job found r refl e)
