-- ===== src/Deployer/Commands.antt =====
-- runLogged, the loop over the steps of Execute, and executeRollback of deployer/deployer.go.
use trilha_runner.Prelude.{
  quote, after, ℕ, ◌+◌, ◌==◌, Bool, ◌&&◌, ◌||◌, not, List, [], ◌∷◌, ◌++◌, Option, none, some,
  is_some, Text, codes, text_eq, is_empty, trim_space, itoa, length, if◌then◌else◌,
}
use trilha_runner.Deployer.{
  Step, Migration, Profile, Ran, World, State, run_lines, run_error, no_argv,
}

-- A step of a deployment takes a state and gives the next one, with an error or none.
abbrev pub Action : Type 0
Action = State → State × Option Text

abbrev pub step_name : ℕ → Step → Text
step_name index step =
    if is_empty (trim_space step.name) then codes "step-" ++ itoa (index + 1) else step.name

abbrev pub is_supported : Text → Bool
is_supported on_fail = is_empty on_fail || text_eq on_fail (codes "abort")

unfoldable pub unsupported : Text → Text → Text
unfolding quote
unsupported name on_fail =
    codes "step " ++ name ++ codes " has unsupported on_fail " ++ quote on_fail

module _ (w : World) (environment : List Text) (secrets : List (Text × Text)) where
  -- runLogged
  unfoldable pub run_logged : Text → List Text → Action
  run_logged name argv s =
      let r : Ran = record { argv = argv; environment = environment } in
      let p = w.run s.timeout s.ran r in
      if no_argv argv then (s, some (name ++ codes " has no argv")) else (
        record s { log = s.log ++ run_lines secrets name p; ran = s.ran ++ (r ∷ []) },
        run_error name p.failure,
      )

  -- One step of the loop of Execute, after the migration.
  unfoldable pub run_step : ℕ → Step → Action
  unfolding run_logged unsupported
  run_step index step s =
      if is_supported step.on_fail
      then run_logged (step_name index step) step.argv s
      else (s, some (unsupported (step_name index step) step.on_fail))

  unfoldable pub migrate_now : Option Migration → Text → Action
  unfolding run_logged
  migrate_now none prefix s = (s, none)
  migrate_now (some m) prefix s =
      after prefix (run_logged (codes "migrate") m.argv s) (λ t. (t, none))

  -- The loop of Execute over the steps from `index` on, and the migration after it.
  unfoldable pub run_steps : Option Migration → ℕ → ℕ → Bool → List Step → Action
  unfolding run_step migrate_now
  run_steps migrate position index ran [] s =
      if is_some migrate && not ran
      then migrate_now migrate (codes "migration failed: ") s
      else (s, none)
  run_steps migrate position index ran (step ∷ steps) s =
      let due = is_some migrate && index == position in
      let rest = run_steps migrate position (index + 1) (ran || due) steps in
      let migrated = migrate_now migrate (codes "migration failed; switch aborted: ") s in
      after [] (if due then migrated else (s, none)) (λ t. after [] (run_step index step t) rest)

  -- executeRollback, with the environment of the rollback.
  unfoldable pub downgrade : Option Migration → Action
  unfolding run_logged
  downgrade none s = (s, none)
  downgrade (some m) s =
      if length m.downgrade == 0
      then (s, none)
      else if not m.is_reversible
      then (
        record s {
          log =
              s.log
              ++ codes
                  "rollback-migration skipped: migration is not reversible; image-only rollback\n";
        },
        none,
      )
      else run_logged (codes "rollback-migration") m.downgrade s

  unfoldable pub roll_back : Profile → Action
  unfolding run_logged downgrade
  roll_back profile s =
      if length profile.rollback == 0
      then (s, some (codes "deployment profile has no rollback command"))
      else after [] (run_logged (codes "rollback-image") profile.rollback s)
          (downgrade profile.migrate)
