-- ===== src/Attempts/Tests.antt =====
-- The attempt loop on concrete runs.
use trilha_runner.Prelude.{
  ℕ, ◌≡◌, ◌==◌, refl, Bool, true, false, [], ◌∷◌, Option, none, some, codes, arith, text_eq,
  if◌then◌else◌, not,
}
use trilha_runner.Tasks.{Status}
use trilha_runner.Retry.{
  Failure, no_class, no_code, classify_retry, error_code_for, field_int, provider_transient,
  checks_failed, environment, missing_tool as missing_tool_code,
}
use trilha_runner.Attempts.State.{
  Output, Answer, World, Config, Run, Verification, fail, move, recover_last, capture, entry,
  passed, recovered,
}
use trilha_runner.Attempts.Ending.{
  needs_input, on_error, finish_read_only, fail_environment, unchanged,
}
use trilha_runner.Attempts.Step.{attempt_step, execute, run_verify, missing_tool}
use trilha_runner.Attempts.Loop.{Tools, run, rounds, preflight}
use trilha_runner.Attempts.ReadOnly.{Outcome, read_only-Outcome}
use trilha_runner.Attempts.History.{Story, run-Story}
use trilha_runner.Attempts.Final.{Final, TakesMoves, run-Final}

abbrev silent : Output
silent = record { text = []; input_tokens = codes "7"; output_tokens = []; tokens = codes "9" }

abbrev busy : Failure
busy = record {
  message = codes "HTTP 503";
  is_canceled = false;
  is_deadline = false;
  is_policy = false;
}

-- The provider is busy at the first attempt, the checks fail at the second and pass at the third.
abbrev answers : ℕ → Bool → Answer
answers n _ = record { output = silent; error = if n == 1 then some busy else none; asks = none }

abbrev outcomes : ℕ → Option Verification
outcomes n = some (record { passed = not (n == 2); evidence = [] })

abbrev world : World
world = record {
  execute = answers;
  log_written = λ _. true;
  allowed = λ _ _. true;
  store_ok = λ _ _. true;
  recorded = λ _. true;
  committed = λ _. some (codes "c1");
  verified = outcomes;
  waited = λ _. true;
  changes = λ _. some [];
  head = λ _. some (codes "c0");
  tip = λ _. some (codes "c0");
}

abbrev config : Bool → Config
config read_only = record {
  read_only = read_only;
  max_attempts = 3;
  resume = false;
  tree_head = codes "c0";
  checks = codes "make" ∷ [];
}

abbrev tools : Tools
tools = record { split = λ check. check ∷ []; installed = λ _. true }

abbrev bare : Tools
bare = record { split = λ check. check ∷ []; installed = λ _. false }

abbrev start : Run
start = record {
  status = Status.running;
  attempt = 0;
  attempts = [];
  passed = false;
  result_status = none;
  failure_class = no_class;
  error_code = no_code;
  question = none;
  pending = none;
  commit = [];
  evidence = [];
  input_tokens = 0;
  output_tokens = 0;
  total_tokens = 0;
  calls = [];
}

world-TakesMoves : TakesMoves world
world-TakesMoves = record {
  starts_verify = refl;
  to_review = refl;
  checks_fail = refl;
  to_ready = refl;
  to_running = refl;
  to_blocked = refl;
  to_failed = refl;
  stored = λ n to. refl;
}

run-Final_example :
    Final (run world (config false) tools start).0 (run world (config false) tools start).1
run-Final_example =
    run-Final world (config false) refl world-TakesMoves tools start (omega arith) refl refl refl

run-Story_example : Story world (config false) (run world (config false) tools start).0
run-Story_example = run-Story world (config false) tools start (omega arith) refl

read_only-Outcome_example :
    Outcome world
      (config true)
      refl
      start
      (run world (config true) tools start).0
      (run world (config true) tools start).1
read_only-Outcome_example =
    read_only-Outcome world (config true) refl tools start (omega arith) refl

unfoldable after_run : Bool → Tools → Run
unfolding run rounds preflight attempt_step execute capture needs_input on_error finish_read_only
    fail_environment run_verify fail move recover_last classify_retry error_code_for field_int
    missing_tool unchanged text_eq
after_run read_only t = (run world (config read_only) t start).0

third_attempt :
    ((after_run false tools).attempts ≡ (
      entry 1 recovered provider_transient no_code
      ∷ entry 2 recovered checks_failed no_code
      ∷ entry 3 passed no_class no_code
      ∷ []))
    × ((after_run false tools).status ≡ Status.review)
    × ((after_run false tools).input_tokens ≡ 21)
    × ((after_run false tools).calls ≡ ((1, false) ∷ (2, false) ∷ (3, false) ∷ []))
unfolding after_run
third_attempt = (refl, refl, refl, refl)

no_program :
    ((after_run false bare).error_code ≡ missing_tool_code)
    × ((after_run false bare).failure_class ≡ environment)
    × ((after_run false bare).calls ≡ [])
unfolding after_run
no_program = (refl, refl, refl)

read_only_end :
    ((after_run true bare).passed ≡ true) × ((after_run true bare).status ≡ Status.running)
unfolding after_run
read_only_end = (refl, refl)
