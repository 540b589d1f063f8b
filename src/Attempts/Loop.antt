-- ===== src/Attempts/Loop.antt =====
-- run of runner/attempt_loop.go: the preflight and the rounds.
use trilha_runner.Prelude.{
  ℕ, zero, suc, ◌+◌, Bool, ◌&&◌, not, List, [], ◌∷◌, Option, none, some, Text, is_some,
  if◌then◌else◌,
}
use trilha_runner.Attempts.State.{World, Config, Run, Stop, Step, done, again, exhausted}
use trilha_runner.Attempts.Ending.{fail_environment}
use trilha_runner.Attempts.Step.{attempt_step}

-- The words of a command, and the lookup of a program where the checks run: trilha-spec's
-- task.SplitCommand, and the host or the sandbox.
pub record Tools : Type 0 where
  pub split : Text → List Text
  pub installed : Text → Bool

-- preflight: the first check whose program is not there, with the program.
unfoldable pub preflight : Tools → List Text → Option (Text × Text)
preflight t [] = none
preflight t (check ∷ checks) =
    let rest = preflight t checks in
    elim (t.split check) [
      | [] ↦ rest
      | program ∷ words ↦ if t.installed program then rest else some (program, check)
    ]

module _ (w : World) (c : Config) where
  -- The rounds: `left` attempts from the attempt `n` on.
  unfoldable pub rounds : ℕ → ℕ → Run → Run × Stop
  rounds zero n s = (s, exhausted)
  rounds (suc left) n s = elim (attempt_step w c n s) [
    | done s' stop ↦ (s', stop)
    | again s' ↦ rounds left (n + 1) s'
  ]

  -- How the rounds go on after a step.
  abbrev pub after_step : ℕ → ℕ → Step → Run × Stop
  after_step left n r = elim r [ done s' stop ↦ (s', stop) | again s' ↦ rounds left (n + 1) s' ]

  abbrev pub ended : Step → Run × Stop
  ended (done s stop) = (s, stop)
  ended (again s) = (s, exhausted)

  unfoldable pub run : Tools → Run → Run × Stop
  run t s =
      if not c.read_only && is_some (preflight t c.checks)
      then ended (fail_environment w c 1 s)
      else rounds c.max_attempts 1 s
