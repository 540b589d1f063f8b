-- ===== src/Deployer/Outcome.antt =====
-- What Execute of deployer/deployer.go has run when it ends.
use trilha_runner.Prelude.{
  ◌<◌, ◌==◌, ◌≡◌, ◌⊎◌, true, false, List, [], ◌++◌, Option, none, some, Text, length, if◌then◌else◌,
}
use trilha_runner.Deployer.{Step, Profile, Result, World, Work, State, Ran, no_argv}
use trilha_runner.Deployer.Health.{health_checks, steps_of}
use trilha_runner.Deployer.Execute.{is_rollback, restored}
use trilha_runner.Deployer.Plan.{Task, plan}
use trilha_runner.Deployer.Processes.{all_of, Part}
use trilha_runner.Deployer.Reverting.{rollback_tasks}
use trilha_runner.Deployer.Checking.{requests, AllHealthy}

module _ (w : World) (profile : Profile) (environment : List Text) where
  abbrev tasks : List Step → List Task
  tasks steps = plan profile.migrate steps

  -- Processes of the rollback, one at least when it has a command.
  abbrev pub RollsBack : List Ran → Type 0
  RollsBack more =
      Part (restored environment) (rollback_tasks profile) more
      × ((no_argv profile.rollback ≡ false) → 0 < length more)

  -- A step or the migration failed: nothing comes after it, no health check and no rollback.
  abbrev pub Stopped : List Step → State × Result → Type 0
  Stopped steps (s, r) =
      (r.passed ≡ false) × (s.checked ≡ []) × Part environment (tasks steps) s.ran

  -- All tasks ran, and every health check found the service well.
  abbrev pub Passed : List Step → State × Result → Type 0
  Passed steps (s, r) =
      (r.passed ≡ true)
      × (s.ran ≡ all_of environment (tasks steps))
      × (s.checked ≡ requests (health_checks profile))
      × AllHealthy w s.timeout s.ran (health_checks profile) []

  -- All tasks ran, a health check failed, and the rollback was run.
  abbrev pub Unhealthy : List Step → State × Result → Type 0
  Unhealthy steps (s, r) =
      (r.passed ≡ false)
      × ((more : List Ran) × (s.ran ≡ all_of environment (tasks steps) ++ more) × RollsBack more)

  abbrev pub Deployed : List Step → State × Result → Type 0
  Deployed steps out = Stopped steps out ⊎ Passed steps out ⊎ Unhealthy steps out

module _ (w : World) (profile : Profile) (environment : List Text)
    (secrets : List (Text × Text)) where
  abbrev planned : List Step → List Task
  planned steps = plan profile.migrate steps

abbrev pub Refused : State × Result → Type 0
Refused (s, r) = (r.passed ≡ false) × (s.ran ≡ []) × (s.checked ≡ [])

abbrev pub Reverted : Profile → List Text → State × Result → Type 0
Reverted profile environment (s, r) =
    (s.checked ≡ [])
    × (((r.passed ≡ true) × (s.ran ≡ all_of (restored environment) (rollback_tasks profile)))
        ⊎ ((r.passed ≡ false) × Part (restored environment) (rollback_tasks profile) s.ran))

-- How a deployment ends, by its profile and its environment.
unfoldable pub Ends : World → Work → Option Profile → Option (List Text) → State × Result → Type 0
Ends w work none environment out = Refused out
Ends w work (some profile) none out = Refused out
Ends w work (some profile) (some environment) out =
    if is_rollback work
    then Reverted profile environment out
    else if length (steps_of profile) == 0
    then Refused out
    else Deployed w profile environment (steps_of profile) out
