-- ===== src/Deployer/Plan.antt =====
-- The tasks that a deployment of deployer/deployer.go plans, in a list, and the tasks that Execute runs.
use trilha_runner.Prelude.{
  after, after_ext, ℕ, zero, suc, ◌+◌, ◌<◌, ◌==◌, ◌≡◌, refl, Bool, true, false, ◌&&◌, ◌||◌, not,
  List, [], ◌∷◌, ◌++◌, Option, none, some, is_some, Text, codes, length, take, drop, if◌then◌else◌,
  sym, ap, ◌∙◌, subst, arith, Option-cases, inl, inr,
}
use trilha_runner.Deployer.{Step, Migration, World, State, migration_position, switch_index}
use trilha_runner.Deployer.Commands.{
  Action, run_steps, run_step, migrate_now, step_name, is_supported, unsupported, run_logged,
}

-- A command under its name, with the words before its error, or a refusal.
pub data Task : Type 0 where
  command : Text → List Text → Text → Task
  refused : Text → Task

abbrev pub plan_step : ℕ → Step → Task
plan_step index step =
    if is_supported step.on_fail
    then command (step_name index step) step.argv []
    else refused (unsupported (step_name index step) step.on_fail)

unfoldable pub plan_steps : ℕ → List Step → List Task
plan_steps index [] = []
plan_steps index (step ∷ steps) = plan_step index step ∷ plan_steps (index + 1) steps

abbrev pub migration : Migration → Task
migration m = command (codes "migrate") m.argv (codes "migration failed; switch aborted: ")

-- The steps, with the migration before the step of its position.
unfoldable pub plan : Option Migration → List Step → List Task
unfolding plan_steps migration_position
plan none steps = plan_steps 0 steps
plan (some m) steps =
    let k = migration_position steps in
    take k (plan_steps 0 steps) ++ (migration m ∷ drop k (plan_steps 0 steps))

-- Tasks in a row, until the first that fails.
module _ (w : World) (environment : List Text) (secrets : List (Text × Text)) where
  abbrev pub act : Task → Action
  act (command name argv prefix) s =
      after prefix (run_logged w environment secrets name argv s) (λ t. (t, none))
  act (refused e) s = (s, some e)

  unfoldable pub follow : List Task → Action
  follow [] s = (s, none)
  follow (t ∷ ts) s = after [] (act t s) (follow ts)

  after_done : (x : State × Option Text) → after [] x (λ t. (t, none)) ≡ x
  after_done (s, none) = refl
  after_done (s, some e) = refl

  if-act :
      (b : Bool) (name error : Text) (argv : List Text) (s : State)
      → (if b then run_logged w environment secrets name argv s else (s, some error))
        ≡ act (if b then command name argv [] else refused error) s
  if-act true name error argv s = sym (after_done (run_logged w environment secrets name argv s))
  if-act false name error argv s = refl

  run_step-act :
      (index : ℕ) (step : Step) (s : State)
      → run_step w environment secrets index step s ≡ act (plan_step index step) s
  unfolding run_step
  run_step-act index step s =
      if-act (is_supported step.on_fail) (step_name index step)
        (unsupported (step_name index step) step.on_fail) step.argv s

  after_step :
      (x : State × Option Text) (index : ℕ) (step : Step) (rest : Action)
      → after [] x (λ t. after [] (run_step w environment secrets index step t) rest)
        ≡ after [] x (λ t. after [] (act (plan_step index step) t) rest)
  after_step (s, none) index step rest = ap (λ a. after [] a rest) (run_step-act index step s)
  after_step (s, some e) index step rest = refl

  abbrev aborted : Text
  aborted = codes "migration failed; switch aborted: "

  -- One turn of the loop.
  run_steps-step :
      (migrate : Option Migration) (position index : ℕ) (ran b : Bool) (step : Step)
      (steps : List Step) (s : State)
      → (is_some migrate && index == position ≡ b)
      → run_steps w environment secrets migrate position index ran (step ∷ steps) s
        ≡ after []
            (if b then migrate_now w environment secrets migrate aborted s else (s, none))
            (λ t.
              after []
                (act (plan_step index step) t)
                (run_steps w environment secrets migrate position (index + 1) (ran || b) steps))
  unfolding run_steps
  run_steps-step migrate position index ran b step steps s e =
      let due = is_some migrate && index == position in
      subst
        (λ (d : Bool).
          run_steps w environment secrets migrate position index ran (step ∷ steps) s
          ≡ after [] (if d then migrate_now w environment secrets migrate aborted s else (s, none))
              (λ t.
                after [] (act (plan_step index step) t)
                  (run_steps w environment secrets migrate position (index + 1) (ran || d) steps)))
        e
        (after_step (if due then migrate_now w environment secrets migrate aborted s else (s, none))
          index step
          (run_steps w environment secrets migrate position (index + 1) (ran || due) steps))

  -- Without a migration to come, the loop follows the steps.
  run_steps-plan_steps :
      (migrate : Option Migration) (position index : ℕ) (ran : Bool) (steps : List Step) (s : State)
      → (is_some migrate && not ran ≡ false)
      → (is_some migrate ≡ true → position < index)
      → run_steps w environment secrets migrate position index ran steps s
        ≡ follow (plan_steps index steps) s
  unfolding run_steps follow plan_steps
  run_steps-plan_steps migrate position index ran [] s idle past = rw idle
  run_steps-plan_steps migrate position index ran (step ∷ steps) s idle past =
      run_steps-step migrate position index ran false step steps s (ground (arith, past))
      ∙ after_ext [] (act (plan_step index step) s) (λ t.
        ap (λ r. run_steps w environment secrets migrate position (index + 1) r steps t)
          (ground arith)
        ∙ run_steps-plan_steps migrate position (index + 1) ran steps t idle (ground (arith, past)))

  -- Before its step, the migration is still to come.
  run_steps-insert :
      (m : Migration) (before index : ℕ) (steps : List Step) (s : State)
      → before < length steps
      → run_steps w environment secrets (some m) (index + before) index false steps s
        ≡ follow
            (take before (plan_steps index steps)
              ++ (migration m ∷ drop before (plan_steps index steps)))
            s
  unfolding follow plan_steps migrate_now
  run_steps-insert m before index [] s h = ground arith
  run_steps-insert m zero index (step ∷ steps) s h =
      run_steps-step (some m) (index + zero) index false true step steps s (ground arith)
      ∙ after_ext [] (act (migration m) s) (λ t. after_ext [] (act (plan_step index step) t) (λ u.
        run_steps-plan_steps (some m) (index + zero) (index + 1) true steps u refl
          (λ _. omega arith)))
  run_steps-insert m (suc before) index (step ∷ steps) s h =
      run_steps-step (some m) (index + suc before) index false false step steps s (ground arith)
      ∙ after_ext [] (act (plan_step index step) s) (λ t.
        ap (λ k. run_steps w environment secrets (some m) k (index + 1) false steps t) (omega arith)
        ∙ run_steps-insert m before (index + 1) steps t (omega (arith, h)))

switch_index_lem : (steps : List Step) {n : ℕ} → switch_index steps ≡ some n → n < length steps
unfolding switch_index
switch_index_lem [] h = cc
switch_index_lem (step ∷ steps) {n} h = elim (Option-cases (switch_index steps)) [
  | inl absent ↦ ground (arith, absent, h)
  | inr (k, found) ↦ ground (arith, switch_index_lem steps found, found, h)
]

migration_position_lem :
    (steps : List Step) → 0 < length steps → migration_position steps < length steps
unfolding migration_position
migration_position_lem steps h = elim (Option-cases (switch_index steps)) [
  | inl none_named ↦ rw (none_named, migration_position) (ground (arith, h))
  | inr (n, named) ↦ rw (named, migration_position) (switch_index_lem steps named)
]

-- A deployment with a step or more runs, stops, logs and fails as the list of its planned tasks
-- does: the steps in their order, with the migration, when there is one, before the step of its
-- position.
pub run_steps-follow :
    (w : World) (environment : List Text) (secrets : List (Text × Text))
    (migrate : Option Migration) (steps : List Step) (s : State)
    → 0 < length steps
    → run_steps w environment secrets migrate (migration_position steps) 0 false steps s
      ≡ follow w environment secrets (plan migrate steps) s
unfolding plan
run_steps-follow w environment secrets none steps s h =
    run_steps-plan_steps w environment secrets none (migration_position steps) 0 false steps s refl
      (λ e. cc)
run_steps-follow w environment secrets (some m) steps s h =
    ap (λ k. run_steps w environment secrets (some m) k 0 false steps s) (omega arith)
    ∙ run_steps-insert w environment secrets m (migration_position steps) 0 steps s
        (migration_position_lem steps h)
