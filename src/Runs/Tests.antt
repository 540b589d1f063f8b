-- ===== src/Runs/Tests.antt =====
-- The set-up of runs on concrete settings.
use trilha_runner.Prelude.{
  ◌≡◌, refl, true, false, [], ◌∷◌, ◌++◌, none, some, codes, arith, to_lower,
}
use trilha_runner.Tasks.{Status}
use trilha_runner.Retry.{sandbox_required}
use trilha_runner.Worktrees.{Mode}
use trilha_runner.Runs.{
  Work, implement, hunt, no_box, docker, wants_docker, no_sandbox, Setting, Start, refused, failing,
  begun, Stage, read_only, target, run_from,
}
use trilha_runner.Runs.Starts.{IsGuarded, run_from-IsGuarded}
use trilha_runner.Runs.Places.{IsPlaced, target-IsPlaced}

abbrev plain_work : Work
plain_work = record {
  kind = implement;
  is_fix = false;
  variant_index = 0;
  has_comments = false;
  foreign_code = false;
}

abbrev setting : Setting
setting = record {
  work = plain_work;
  is_continued = true;
  has_live_runner = false;
  moves = λ from to. true;
  project_loads = true;
  agent_loads = true;
  pack_builds = true;
  blocker = some [];
  driver_found = true;
  driver_is_ai = true;
  is_repo = true;
  own_checks = codes "make" ∷ [];
  project_checks = codes "lint" ∷ [];
  base_checks = some (codes "vet" ∷ []);
  opens = true;
  box = no_box;
  manifest = wants_docker;
  prepares = true;
  max_attempts = 0;
  task_attempts = 0;
  agent_attempts = 0;
}

abbrev foreign : Setting
foreign = record setting { work = record plain_work { foreign_code = true } }

run_from-IsGuarded_example : IsGuarded setting Status.blocked (run_from setting Status.blocked)
run_from-IsGuarded_example = run_from-IsGuarded setting Status.blocked

target-IsPlaced_example :
    IsPlaced
      (record plain_work { variant_index = 2 })
      none
      (codes "0007")
      (refl, (refl, (refl, (refl, tt))))
      (omega arith)
      (target (record plain_work { variant_index = 2 }) none (codes "TASK-" ++ codes "0007"))
target-IsPlaced_example =
    target-IsPlaced (record plain_work { variant_index = 2 }) none (codes "0007")
      (refl, (refl, (refl, (refl, tt)))) (omega arith)

unfoldable began : Setting → Status → Start
unfolding run_from read_only
began s at = run_from s at

own_start :
    began setting Status.blocked
    ≡ begun Status.running (record {
      checks = codes "make" ∷ codes "lint" ∷ [];
      box = docker;
      box_is_read_only = false;
      has_credential = true;
      max_attempts = 3;
    })
unfolding began
own_start = refl

foreign_start :
    began foreign Status.ready
    ≡ begun Status.running (record {
      checks = codes "make" ∷ codes "vet" ∷ [];
      box = docker;
      box_is_read_only = false;
      has_credential = false;
      max_attempts = 3;
    })
unfolding began
foreign_start = refl

foreign_unboxed :
    began (record foreign { manifest = no_sandbox }) Status.ready
    ≡ failing Status.failed Stage.policy sandbox_required
unfolding began
foreign_unboxed = refl

done_refused : began setting Status.done ≡ refused Status.done
unfolding began
done_refused = refl

hunt_place :
    target (record plain_work { kind = hunt }) (some (codes "run-000007")) (codes "TASK-001")
    ≡ record {
      task = codes "TASK-001";
      key = codes "TASK-001-hunt-run-000007";
      branch = codes "trilha/task-001";
      mode = Mode.detached;
    }
unfolding target read_only to_lower
hunt_place = refl
