-- ===== src/Deployer/Tests.antt =====
-- Deployments by a profile with a migration before its switch.
use trilha_runner.Prelude.{
  ℕ, contains_byte, ◌≡◌, refl, true, false, List, [], ◌∷◌, Option, none, some, Text, codes, text_eq,
  pos, map, arith, if◌then◌else◌, itoa, to_lower, trim_space, is_space, trim_left, trim_right,
  contains, has_prefix, strip_suffix,
}
use trilha_runner.Agents.{replace_all}
use trilha_runner.Deployer.{
  Step, Profile, Result, Work, Ran, World, State, nanoseconds, bounded_timeout, redact, limit,
  deploy_result, all_variable_bytes, is_variable, has_bad_secret, secret_entries, safe_environment,
  deployment_environment, replace_environment, switch_index, migration_position, status,
}
use trilha_runner.Deployer.Commands.{
  run_logged, run_step, migrate_now, run_steps, downgrade, roll_back,
}
use trilha_runner.Deployer.Health.{check_timeout, joined, check_health}
use trilha_runner.Deployer.Execute.{
  fresh_state, operation_timeout, restored, execute_rollback, roll_out, perform, execute,
}
use trilha_runner.Deployer.Plan.{plan, follow, run_steps-follow}

abbrev word : Text → List Text
word argument = argument ∷ []

abbrev first_of : List Text → Text
first_of [] = []
first_of (t ∷ ts) = t

abbrev build_step : Step
build_step = record { name = codes "build"; argv = word (codes "make"); on_fail = [] }

abbrev switch : Step
switch = record { name = codes " Switch"; argv = word (codes "swap"); on_fail = codes "abort" }

abbrev shop : Profile
shop = record {
  deploy = [];
  rollback = word (codes "undo");
  steps = build_step ∷ switch ∷ [];
  migrate =
      some (record {
        argv = word (codes "up");
        downgrade = word (codes "down");
        is_reversible = true;
      });
  health = [];
  health_url = codes "http://localhost/";
  timeout_seconds = pos 60;
}

abbrev work_for : Text → Text → Work
work_for profile action = record {
  id = codes "d1";
  project = codes "p";
  environment = codes "prod";
  profile = profile;
  action = action;
  revision = codes "r2";
  previous_revision = codes "r1";
  secrets = (codes "TOKEN", codes "s3cret") ∷ [];
}

abbrev profiles : Text → Option Profile
unfolding text_eq
profiles name = if text_eq name (codes "shop") then some shop else none

-- A world where one program fails and the server answers with a code.
abbrev world : Text → ℕ → World
unfolding text_eq
world broken code = record {
  lookup_env = λ name. none;
  run = λ timeout ran r. record {
    output = codes "key s3cret";
    duration = codes "1ms";
    failure =
        if text_eq (first_of r.argv) broken then some (pos 2, codes "exit status 2") else none;
  };
  get = λ timeout ran checked url. status (codes "2ms") code (codes "answer");
}

abbrev run_words : State × Result → List (List Text)
run_words (s, r) = map (λ (p : Ran). p.argv) s.ran

unfoldable deployed : Text → ℕ → State × Result
unfolding text_eq execute perform roll_out execute_rollback restored operation_timeout
    bounded_timeout nanoseconds deployment_environment safe_environment has_bad_secret is_variable
    all_variable_bytes secret_entries replace_environment switch_index migration_position run_logged
    run_step migrate_now run_steps downgrade roll_back check_timeout check_health joined
    deploy_result limit redact replace_all contains_byte has_prefix strip_suffix itoa to_lower
    trim_space is_space trim_left trim_right
deployed broken code =
    execute (world broken code) profiles (work_for (codes "shop") (codes "deploy"))

all_well :
    run_words (deployed [] 204) ≡ word (codes "make") ∷ word (codes "up") ∷ word (codes "swap") ∷ []
unfolding deployed
all_well = refl

migration_fails :
    (deployed (codes "up") 204).1.error
    ≡ codes "migration failed; switch aborted: migrate failed: exit status 2"
unfolding deployed
migration_fails = refl

switch_left_out :
    run_words (deployed (codes "up") 204) ≡ word (codes "make") ∷ word (codes "up") ∷ []
unfolding deployed
switch_left_out = refl

ill :
    run_words (deployed [] 500)
    ≡ word (codes "make")
      ∷ word (codes "up")
      ∷ word (codes "swap")
      ∷ word (codes "undo")
      ∷ word (codes "down")
      ∷ []
unfolding deployed
ill = refl

hidden : contains (deployed [] 204).1.log (codes "s3cret") ≡ false
unfolding deployed contains
hidden = refl

run_steps-follow_example :
    run_steps
      (world (codes "up") 204)
      []
      []
      shop.migrate
      (migration_position shop.steps)
      0
      false
      shop.steps
      (fresh_state 5)
    ≡ follow (world (codes "up") 204) [] [] (plan shop.migrate shop.steps) (fresh_state 5)
run_steps-follow_example =
    run_steps-follow (world (codes "up") 204) [] [] shop.migrate shop.steps (fresh_state 5)
      (omega arith)
