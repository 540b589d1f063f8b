-- ===== src/Attempts/Rule.antt =====
-- A proof rule for the rounds of the attempt loop, and what every part keeps.
use trilha_runner.Prelude.{
  subst, sym, ◌-◌, ℕ, zero, suc, ◌+◌, ◌≤◌, ◌<◌, ◌≡◌, Bool, true, false, arith,
}
use trilha_runner.Attempts.State.{World, Config, Run, Stop, Step, done, again, finished}
use trilha_runner.Attempts.Step.{attempt_step}
use trilha_runner.Attempts.Loop.{rounds, after_step}

-- What holds of a step: `P` of an end, `Q` of the state for the next round.
abbrev pub Holds : (Run → Type 0) → (Run → Stop → Type 0) → Step → Type 0
Holds Q P (done s x) = P s x
Holds Q P (again s) = Q s

abbrev pub is_finished : Stop → Bool
is_finished finished = true
is_finished _ = false

module _ (w : World) (c : Config) (I : ℕ → Run → Type 0) (P : Run → Stop → Type 0)
    (step : (n : ℕ) (s : Run)
      → n ≤ c.max_attempts
      → I n s
      → Holds (λ s'. (n < c.max_attempts) × I (n + 1) s') P (attempt_step w c n s)) where
  rounds_suc :
      (left n : ℕ) (s : Run)
      → Holds (λ s'. (n < c.max_attempts) × I (n + 1) s') P (attempt_step w c n s)
      → ((s' : Run)
          → n < c.max_attempts
          → I (n + 1) s'
          → P (rounds w c left (n + 1) s').0 (rounds w c left (n + 1) s').1)
      → P (rounds w c (suc left) n s).0 (rounds w c (suc left) n s).1
  unfolding rounds
  rounds_suc left n s = go (attempt_step w c n s)
    where
      go :
          (r : Step)
          → Holds (λ s'. (n < c.max_attempts) × I (n + 1) s') P r
          → ((s' : Run)
              → n < c.max_attempts
              → I (n + 1) s'
              → P (rounds w c left (n + 1) s').0 (rounds w c left (n + 1) s').1)
          → P (after_step w c left n r).0 (after_step w c left n r).1
      go (done s' x) h next = h
      go (again s') h next = next s' h.0 h.1

  -- Every round has an attempt left, so the loop never runs out of them.
  pub rounds_ind :
      (left n : ℕ) (s : Run)
      → n + left ≡ c.max_attempts
      → I n s
      → P (rounds w c (suc left) n s).0 (rounds w c (suc left) n s).1
  rounds_ind zero n s e h =
      rounds_suc zero n s (step n s (omega arith) h) (λ s' less _. absurd (omega arith))
  rounds_ind (suc left) n s e h =
      rounds_suc (suc left) n s (step n s (omega arith) h)
        (λ s' less k. rounds_ind left (n + 1) s' (omega arith) k)

  pub all_rounds :
      (s : Run)
      → 1 ≤ c.max_attempts
      → I 1 s
      → P (rounds w c c.max_attempts 1 s).0 (rounds w c c.max_attempts 1 s).1
  all_rounds s some_ h =
      let e : c.max_attempts ≡ suc (c.max_attempts - 1) = omega arith in
      subst (λ m. P (rounds w c m 1 s).0 (rounds w c m 1 s).1) (sym e)
        (rounds_ind (c.max_attempts - 1) 1 s (omega arith) h)
