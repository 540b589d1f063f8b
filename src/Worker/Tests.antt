-- ===== src/Worker/Tests.antt =====
-- The worker on concrete work.
use trilha_runner.Prelude.{
  inl, ◌≡◌, refl, ℕ, ◌+◌, ◌==◌, true, false, List, [], ◌∷◌, ◌++◌, some, codes, text_eq, arith,
  if◌then◌else◌,
}
use trilha_runner.Worker.{
  claimed, nothing_ready, no_deployment, finishes, Fleet, Options, State, start, beat, idle, busy,
  capacity, claim_all, idle_round, pass, passes, work,
}
use trilha_runner.Worker.Slots.{Slots, HasReason, work-Slots, claim_all-HasReason}
use trilha_runner.Worker.Outbox.{taken, refused, Try, cleared, Pending, deliver, is_safe_run_id}
use trilha_runner.Worker.Outbox.Fates.{backoff, deliver-append}
use trilha_runner.Worker.Items.{
  Bundle, bundled, Item, WorkerOptions, Answers, strings_cut, remote_dependency_blocker,
  execute_item,
}
use trilha_runner.Worker.Items.Routes.{IsAllowed, execute_item-IsAllowed}

-- Three claims are answered, and the first run ends in every round.
abbrev fleet : Fleet
fleet = record {
  first_beat = true;
  flushed = true;
  claim = λ n. if n == 3 then nothing_ready else claimed;
  ended_claiming = λ n. false;
  deployment = λ n. no_deployment;
  event = λ n. finishes 0;
  delivered = λ n. true;
}

abbrev two_slots : Options
two_slots = record { once = false; wanted_capacity = 2; delivery_enabled = true }

abbrev try_of : ℕ → Try
try_of code = record { answer = refused code; ended_before = false; ended_waiting = false }

abbrev accepted : Try
accepted = record { answer = taken; ended_before = false; ended_waiting = false }

abbrev pending : List Pending
pending =
    record {
      path = codes "a";
      readable = true;
      well_formed = true;
      tries = try_of 503 ∷ accepted ∷ [];
    }
    ∷ record { path = codes "b"; readable = true; well_formed = true; tries = try_of 422 ∷ [] }
    ∷ []

abbrev own_bundle : Bundle
own_bundle = record {
  depends_on = codes "TASK-001" ∷ codes "docs:TASK-002" ∷ [];
  repository = codes "r";
  default_branch = codes "main";
}

abbrev options : WorkerOptions
options = record {
  workspace_root = codes "/w";
  repository = [];
  default_branch = codes "main";
  push = true;
}

abbrev item : Item
item = record { waiting = []; foreign_code = false }

abbrev answers : Answers
answers = record {
  bundle = bundled own_bundle;
  status = λ alias id. some (codes "done");
  checkout = true;
  runner = true;
  run = λ in_bundle branch. record { has_error = false; result = some false };
  pushed = true;
}

work-Slots_example : Slots fleet two_slots (work fleet two_slots 5)
work-Slots_example = work-Slots fleet two_slots 5

claim_all-HasReason_example :
    HasReason fleet two_slots (claim_all fleet two_slots 2 (beat start idle))
unfolding capacity
claim_all-HasReason_example = claim_all-HasReason fleet two_slots 2 (beat start idle) (omega arith)

deliver-append_example :
    deliver 0 ((try_of 503 ∷ []) ++ (accepted ∷ []))
    ≡ record { fate = cleared; waits = backoff 1_000_000_000 0 1; posts = 1 + 1 }
deliver-append_example =
    deliver-append 0 (try_of 503 ∷ []) accepted [] cleared ((inl (omega arith), refl, refl), tt) tt

no_way_up : is_safe_run_id (codes "../x") ≡ false
unfolding is_safe_run_id
no_way_up = refl

execute_item-IsAllowed_example : IsAllowed options item answers (execute_item options item answers)
execute_item-IsAllowed_example = execute_item-IsAllowed options item answers

dependency_cut : strings_cut (codes "docs:TASK-2") ≡ (codes "docs", codes "TASK-2", true)
unfolding strings_cut
dependency_cut = refl

unfoldable after_passes : ℕ → State
unfolding work passes pass claim_all idle_round capacity
after_passes n = work fleet two_slots n

third_claim :
    ((after_passes 2).active ≡ (2 ∷ []))
    × ((after_passes 2).posted ≡ (0 ∷ 1 ∷ []))
    × ((after_passes 1).beats ≡ (idle ∷ busy 1 2 ∷ busy 2 2 ∷ busy 1 2 ∷ []))
unfolding after_passes
third_claim = (refl, refl, refl)

pushes :
    ((execute_item options item answers).tried_push ≡ true)
    × ((execute_item options (record item { foreign_code = true }) answers).tried_push ≡ false)
unfolding execute_item remote_dependency_blocker text_eq strings_cut
pushes = (refl, refl)
