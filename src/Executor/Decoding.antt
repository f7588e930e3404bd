-- ===== src/Executor/Decoding.antt =====
-- services/pipeline-executor/src/lib.rs: the decode loop.
use mathlib.Core.Option.{get_or}
use mathlib.Core.List.{append-nil, append_assoc}
use tensorgrid.Base.{
  ◌≢◌, ◌==◌, ℕ, zero, suc, ◌+◌, ◌-◌, ◌%◌, ◌^◌, ◌<◌, ◌≡◌, ◌∙◌, refl, sym, ap, min, some, List, [],
  ◌∷◌, ◌++◌, arith, length, last?, All, Bool-cases, inl, inr, last?-append,
}
use tensorgrid.Executor.{
  Clock, StageState, decode_loop, run_pipeline, next_token, eos, run_stages, ready,
}

-- `n` consecutive numbers modulo 1000, after x.
unfoldable pub count_up : ℕ → ℕ → List ℕ
count_up x zero = []
count_up x (suc n) = (x + 1) % 1000 ∷ count_up ((x + 1) % 1000) n

-- How many tokens follow x up to the end-of-sequence token 2, this one included.
abbrev pub until_eos : ℕ → ℕ
until_eos x = (1001 - x % 1000) % 1000 + 1

abbrev pub last_token : List ℕ → ℕ
last_token tokens = get_or (last? tokens) 0

until_eos-step :
    (x left : ℕ)
    → (x + 1) % 1000 ≢ eos
    → min (suc left) (until_eos x) ≡ suc (min left (until_eos ((x + 1) % 1000)))
until_eos-step x left h = omega arith

until_eos-last : (x left : ℕ) → (x + 1) % 1000 ≡ eos → min (suc left) (until_eos x) ≡ 1
until_eos-last x left h = omega arith

next_token-small :
    (tokens : List ℕ)
    → last_token tokens < 2 ^ 32 - 1
    → next_token tokens ≡ (last_token tokens + 1) % 1000
next_token-small tokens h = omega arith

decode_loop-tokens :
    (clock : Clock) (round left : ℕ) (stages : List StageState) (tokens generated : List ℕ)
    → last_token tokens < 2 ^ 32 - 1
    → (decode_loop clock round left stages tokens generated).1
      ≡ generated ++ count_up (last_token tokens) (min left (until_eos (last_token tokens)))
unfolding decode_loop count_up
decode_loop-tokens clock round zero stages tokens generated h =
    let none_left : min 0 (until_eos (last_token tokens)) ≡ 0 = omega arith in
    rw none_left (sym (append-nil generated))
decode_loop-tokens clock round (suc left) stages tokens generated h =
    elim (Bool-cases (next_token tokens == eos)) [
      | inl e ↦
          rw
            (e, until_eos-last (last_token tokens) left (ground (arith, next_token-small tokens h)))
            (ap (λ t. generated ++ t ∷ []) (next_token-small tokens h))
      | inr e ↦
          let token = next_token tokens in
          rw e (
            decode_loop-tokens clock (round + 1) left (run_stages ready (clock round) 0 stages)
              (tokens ++ token ∷ []) (generated ++ token ∷ [])
              (rw (last?-append tokens token []) (omega arith))
            ∙ append_assoc generated (token ∷ []) _
            ∙ rw (last?-append tokens token [], next_token-small tokens h)
                (rw
                  (until_eos-step (last_token tokens) left
                    (ground (arith, next_token-small tokens h)))
                  refl))
    ]

last_token-twice : (tokens : List ℕ) → last_token (tokens ++ tokens) ≡ last_token tokens
last_token-twice [] = refl
last_token-twice (x ∷ xs) = ap (λ o. get_or o 0) (last?-append (x ∷ xs) x xs)

pub run_pipeline-tokens :
    (clock : Clock) (max_tokens : ℕ) (stages : List StageState) (input : List ℕ)
    → last_token input < 2 ^ 32 - 1
    → (run_pipeline clock max_tokens stages input).1
      ≡ count_up (last_token input) (min max_tokens (until_eos (last_token input)))
unfolding run_pipeline
run_pipeline-tokens clock max_tokens stages input h =
    decode_loop-tokens clock 1 max_tokens _ (input ++ input) [] (rw (last_token-twice input) h)
    ∙ rw (last_token-twice input)

pub length-count_up : (x n : ℕ) → length (count_up x n) ≡ n
unfolding count_up
length-count_up x zero = refl
length-count_up x (suc n) = ap suc (length-count_up ((x + 1) % 1000) n)

pub count_up-lt : (x n : ℕ) → All (λ t. t < 1000) (count_up x n)
unfolding count_up
count_up-lt x zero = tt
count_up-lt x (suc n) = (omega arith, count_up-lt ((x + 1) % 1000) n)

-- The run that is not cut short ends with the end-of-sequence token.
pub count_up-last : (x n : ℕ) → n + 1 ≡ until_eos x → last? (count_up x (suc n)) ≡ some eos
unfolding count_up
count_up-last x zero h = ap some (omega arith)
count_up-last x (suc n) h = count_up-last ((x + 1) % 1000) n (omega arith)
