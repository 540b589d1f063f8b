-- ===== src/Deployer/Execute.antt =====
-- Execute of deployer/deployer.go: the refusals, the steps, the health checks and the rollback.
use trilha_runner.Prelude.{
  ℕ, ◌==◌, Bool, false, List, [], ◌++◌, Option, none, some, Text, codes, text_eq, length,
  if◌then◌else◌,
}
use trilha_runner.Deployer.{
  Step, Profile, Result, Work, World, State, bounded_timeout, deploy_result, refusal,
  deployment_environment, replace_environment, migration_position,
}
use trilha_runner.Deployer.Commands.{Action, run_steps, roll_back}
use trilha_runner.Deployer.Health.{check_health, health_checks, steps_of}

abbrev pub fresh_state : ℕ → State
fresh_state timeout = record { timeout = timeout; log = []; ran = []; checked = [] }

abbrev pub with_log : Text → State → State
with_log line s = record s { log = s.log ++ line }

unfoldable pub operation_timeout : Profile → ℕ
unfolding bounded_timeout
operation_timeout profile =
    bounded_timeout 1_800_000_000_000 600_000_000_000 profile.timeout_seconds

-- The error of a deployment after the rollback that its health check asked for.
abbrev pub rollback_error : Text → Option Text → Text
rollback_error e none = e
rollback_error e (some failure) = e ++ codes "; rollback failed: " ++ failure

abbrev pub is_rollback : Work → Bool
is_rollback work = text_eq work.action (codes "rollback")

-- The environment of a rollback.
unfoldable pub restored : List Text → List Text
unfolding replace_environment
restored environment =
    replace_environment environment (codes "TRILHA_DEPLOY_ACTION") (codes "rollback")

module _ (w : World) (profile : Profile) (environment : List Text)
    (secrets : List (Text × Text)) where
  -- executeRollback
  unfoldable pub execute_rollback : Action
  unfolding roll_back restored
  execute_rollback = roll_back w (restored environment) secrets profile

  -- The end of Execute, from the health checks on.
  abbrev pub settled : (State × Text) × Option Text → State × Result
  settled ((s, health), none) = (s, deploy_result secrets s health none)
  settled ((s, health), some e) =
      let (t, failure) =
        execute_rollback (with_log (codes "health failed; starting rollback\n") s) in
      (t, deploy_result secrets t health (some (rollback_error e failure)))

  abbrev pub stepped : State × Option Text → State × Result
  stepped (s, none) = settled (check_health w (health_checks profile) [] s)
  stepped (s, some e) = (s, deploy_result secrets s [] (some e))

  unfoldable pub roll_out : List Step → State → State × Result
  roll_out steps s =
      if length steps == 0
      then (s, refusal (codes "deployment profile has no deploy steps"))
      else stepped (
          run_steps w environment secrets profile.migrate (migration_position steps) 0 false steps
            s)

  abbrev pub rolled : State × Option Text → State × Result
  rolled (s, e) = (s, deploy_result secrets s [] e)

-- Execute after its look-ups.
unfoldable pub perform : World → Work → Option Profile → Option (List Text) → State × Result
perform w work none environment =
    (fresh_state 0, refusal (codes "deployment profile is not allow-listed"))
perform w work (some profile) none =
    (fresh_state 0, refusal (codes "deployment contains an invalid secret"))
perform w work (some profile) (some environment) =
    let s = fresh_state (operation_timeout profile) in
    if is_rollback work
    then rolled w profile environment work.secrets
        (execute_rollback w profile environment work.secrets s)
    else roll_out w profile environment work.secrets (steps_of profile) s

-- Execute of a configuration, which is a map from names to profiles.
unfoldable pub execute : World → (Text → Option Profile) → Work → State × Result
execute w profiles work =
    perform w work (profiles work.profile) (deployment_environment w.lookup_env work)
