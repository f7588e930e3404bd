-- ===== src/FineTuning/Pausing.antt =====
-- services/fine-tuning/src/lib.rs: the task of a paused job and the lock on the jobs.
use tensorgrid.Base.{
  ℕ, zero, suc, ◌≡◌, ◌∙◌, refl, sym, ap, subst, true, ◌||◌, Option, none, some, List, [], ◌∷◌, any,
  arith, id_key,
}
use mathlib.Core.Bool.{true≢false}
use mathlib.Core.Option.{some-injective}
use tensorgrid.HashMap.{get}
use tensorgrid.Float.{Float}
use tensorgrid.Types.{DateTime}
use tensorgrid.FineTuning.{
  paused, FineTuningJob, Jobs, waiting, Trainer, Service, run_training, after_look, is_waiting,
  is_blocked, turn_from, turn, Step, called, turned, Steps, unchanged, and_then,
}

unfoldable pub trainer_at : ℕ → List Trainer → Option Trainer
trainer_at i [] = none
trainer_at zero (t ∷ ts) = some t
trainer_at (suc i) (t ∷ ts) = trainer_at i ts

waiting_blocks :
    (i : ℕ) (ts : List Trainer) (t : Trainer)
    → trainer_at i ts ≡ some t
    → is_waiting t ≡ true
    → any is_waiting ts ≡ true
unfolding trainer_at
waiting_blocks i [] t h w = cc
waiting_blocks zero (u ∷ us) t h w =
    ap (λ x. is_waiting x || any is_waiting us) (some-injective u t h)
    ∙ ap (λ b. b || any is_waiting us) w
waiting_blocks (suc i) (u ∷ us) t h w = ground (arith, waiting_blocks i us t h w)

module _ {F : Type 0} (fl : Float F) where
  -- The task at the position waits, and its job is paused.
  pub record IsStuck (i : ℕ) (t : Trainer) (s : Service F) : Type 0 where
    pub there : trainer_at i s.trainers ≡ some t
    pub waits : t.phase ≡ waiting
    pub job : FineTuningJob F
    pub found : get t.job_id s.jobs ≡ some job
    pub is_paused : job.status ≡ paused

  -- Nothing is written while writers are kept out.
  blocked-jobs :
      (now : DateTime) (t : Trainer) (jobs : Jobs F) → (run_training fl now true t jobs).1 ≡ jobs
  unfolding run_training
  blocked-jobs now t jobs = ground arith

  turn_from-jobs :
      (now : DateTime) (i : ℕ) (ts : List Trainer) (jobs : Jobs F)
      → (turn_from fl now true i ts jobs).1 ≡ jobs
  unfolding turn_from
  turn_from-jobs now i [] jobs = refl
  turn_from-jobs now zero (t ∷ ts) jobs = blocked-jobs now t jobs
  turn_from-jobs now (suc i) (t ∷ ts) jobs = turn_from-jobs now i ts jobs

  looks : (job : FineTuningJob F) → job.status ≡ paused → after_look (some job) ≡ waiting
  looks job p = rw p refl

  waits_on :
      (now : DateTime) (t : Trainer) (jobs : Jobs F) (job : FineTuningJob F)
      → t.phase ≡ waiting
      → get t.job_id jobs ≡ some job
      → job.status ≡ paused
      → (run_training fl now true t jobs).0 ≡ t
  unfolding run_training
  waits_on now t jobs job w found p =
      subst (λ x. (run_training fl now true x jobs).0 ≡ x)
        (ap (λ phase. record t { phase = phase }) (sym w))
        (ap (λ phase. record t { phase = phase }) (ap after_look found ∙ looks job p))

  turn_from-trainer_at :
      (now : DateTime) (i j : ℕ) (ts : List Trainer) (jobs : Jobs F) (t : Trainer)
      → trainer_at j ts ≡ some t
      → (run_training fl now true t jobs).0 ≡ t
      → trainer_at j (turn_from fl now true i ts jobs).0 ≡ some t
  unfolding turn_from trainer_at
  turn_from-trainer_at now i j [] jobs t h w = cc
  turn_from-trainer_at now zero zero (u ∷ us) jobs t h w =
      ap some (subst (λ x. (run_training fl now true x jobs).0 ≡ t) (sym (some-injective u t h)) w)
  turn_from-trainer_at now zero (suc j) (u ∷ us) jobs t h w = h
  turn_from-trainer_at now (suc i) zero (u ∷ us) jobs t h w = h
  turn_from-trainer_at now (suc i) (suc j) (u ∷ us) jobs t h w =
      turn_from-trainer_at now i j us jobs t h w

  IsStuck-blocks : (i : ℕ) (t : Trainer) (s : Service F) → IsStuck i t s → is_blocked s ≡ true
  IsStuck-blocks i t s h = waiting_blocks i s.trainers t h.there (rw h.waits refl)

  turn-IsStuck :
      (now : DateTime) (i j : ℕ) (t : Trainer) (s : Service F)
      → IsStuck i t s
      → IsStuck i t (turn fl now j s) × ((turn fl now j s).jobs ≡ s.jobs)
  unfolding turn
  turn-IsStuck now i j t s h =
      let same = turn_from-jobs now j s.trainers s.jobs in
      rw (IsStuck-blocks i t s h) (
        record {
          there =
              turn_from-trainer_at now j i s.trainers s.jobs t h.there
                (waits_on now t s.jobs h.job h.waits h.found h.is_paused);
          waits = h.waits;
          job = h.job;
          found = ap (get t.job_id) same ∙ h.found;
          is_paused = h.is_paused;
        },
        same,
      )

  Step-IsStuck :
      (i : ℕ) (t : Trainer) (s u : Service F)
      → Step fl s u
      → IsStuck i t s
      → IsStuck i t u × (u.jobs ≡ s.jobs)
  Step-IsStuck i t s u (called c free e) h =
      absurd (true≢false (sym (IsStuck-blocks i t s h) ∙ free))
  Step-IsStuck i t s u (turned now j e) h =
      subst (λ v. IsStuck i t v × (v.jobs ≡ s.jobs)) e (turn-IsStuck now i j t s h)

  -- Once the task of a paused job waits, no step of any task and no call changes a job again: the job
  -- cannot be resumed, and every call that writes waits for ever.
  pub Steps-IsStuck :
      (i : ℕ) (t : Trainer) {s u : Service F}
      → Steps fl s u
      → IsStuck i t s
      → IsStuck i t u × (u.jobs ≡ s.jobs)
  Steps-IsStuck i t {s} {u} (unchanged e) h =
      subst (λ v. IsStuck i t v × (v.jobs ≡ s.jobs)) e (h, refl)
  Steps-IsStuck i t {s} {u} (and_then {t = m} before last) h =
      let (stuck, same) = Steps-IsStuck i t before h in
      let (stuck', same') = Step-IsStuck i t m u last stuck in (stuck', same' ∙ same)
