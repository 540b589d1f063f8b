-- ===== src/Worktrees/Tests.antt =====
-- Worktrees and the doctor on a small repository.
use trilha_runner.Prelude.{
  ◌≡◌, ◌⊎◌, refl, true, false, List, [], ◌∷◌, ◌++◌, none, some, Text, codes, text_eq, trim_space,
  to_lower, has_prefix, itoa, arith, if◌then◌else◌, ◌||◌,
}
use trilha_runner.Worktrees.{
  variant, Target, Command, Host, Opened, fetch, add_tree, teardown, remove_tree, remove_dir,
  delete_branch, prune_trees, candidate, proven_branch, create, try_variants, open_own,
  open_variant, open_existing, open_detached, detached_ref, open_target, wanted_tree, task_of,
  digit_run, fetched, before, max_variant_suffix,
}
use trilha_runner.Worktrees.Keys.{task_of-append}
use trilha_runner.Worktrees.Candidates.{Searched, open_variant-Searched}
use trilha_runner.Worktrees.Safety.{AllAllowed, open_target-Safe}
use mathlib.Core.List.{Perm}
use trilha_runner.Worktrees.Doctor.Tallies.{Tallied}
use trilha_runner.Worktrees.Doctor.Listed.{keys_of}
use trilha_runner.Worktrees.Doctor.{removed, Options, Scan, inspect, wanted, prune}
use trilha_runner.Worktrees.Doctor.Totals.{treat_all, doctor}
use trilha_runner.Worktrees.Doctor.Counts.{Counted, doctor-Counted}

-- The branch of the first variant is here, and so is its second name, which the run made.
abbrev host : Host
unfolding text_eq
host = record {
  run_dir = λ key. codes "runs/" ++ key;
  makes_dir = λ dir. true;
  has_tree =
      λ path. text_eq path (codes "runs/TASK-001/wt") || text_eq path (codes "runs/TASK-002/wt");
  proof = λ key. some (codes "trilha/task-001-v1-2\n");
  has_origin = true;
  is_local = λ branch.
      text_eq branch (codes "trilha/task-001-v1") || text_eq branch (codes "trilha/task-001-v1-2");
  is_remote = λ branch. false;
  is_ancestor = λ older newer. true;
  head = λ path. (codes "c0\n", true);
  succeeds = λ c. true;
}

abbrev second : Target
second = record {
  task = codes "TASK-001";
  key = codes "TASK-001-v1";
  branch = codes "trilha/task-001-v1";
  mode = variant;
}

abbrev scan : Scan
unfolding text_eq
scan = record {
  age_and_size = λ dir. (3, 5);
  exists = λ path. true;
  pid_file = λ key. none;
  is_alive = λ pid. false;
  processes_in = λ path. if text_eq path (codes "runs/TASK-002/wt") then 9 ∷ [] else [];
  checked_out = λ path. some (codes "trilha/task-001-v1-2\n");
  changes = λ path. some [];
  is_registered = λ path. false;
  has_task_file = λ task. true;
  base = codes "refs/heads/main";
}

abbrev options : Options
options = record { prune_orphans = true; prune_older_than = 0; force_unmerged = false }

abbrev keys : List Text
keys = codes "TASK-001" ∷ codes "TASK-002" ∷ []

abbrev number : Text
number = codes "0012"

task_of-append_example :
    task_of (codes "TASK-" ++ (number ++ codes "-v2")) ≡ codes "TASK-" ++ number
task_of-append_example =
    task_of-append number (codes "-v2") (refl, (refl, (refl, (refl, tt)))) (omega arith) refl

open_target-Safe_example :
    AllAllowed host
      (wanted_tree host second).key
      (wanted_tree host second).path
      variant
      (open_target host second)
open_target-Safe_example = open_target-Safe host second

open_variant-Searched_example :
    ((host.has_tree (wanted_tree host second).path ≡ true)
      × ((open_variant host (wanted_tree host second)).commands ≡ [])
      × ((open_variant host (wanted_tree host second)).error ≡ none))
    ⊎ ((host.has_tree (wanted_tree host second).path ≡ false)
        × ((o : Opened) × (open_variant host (wanted_tree host second)
              ≡ before host (fetched host (wanted_tree host second).branch) o)
            × Searched host (wanted_tree host second) 1 max_variant_suffix o))
open_variant-Searched_example = open_variant-Searched host (wanted_tree host second)

doctor-Counted_example :
    Perm (keys_of (doctor host scan options keys).0.entries) keys
    × Tallied (doctor host scan options keys).0 (doctor host scan options keys).0.entries
    × Counted (doctor host scan options keys).0
doctor-Counted_example = doctor-Counted host scan options keys

unfoldable commands_of : Target → List Command
unfolding text_eq to_lower itoa trim_space proven_branch candidate create try_variants open_own
    open_variant open_existing open_detached detached_ref open_target
commands_of t = (open_target host t).commands

abbrev path : Text
path = codes "runs/TASK-001-v1/wt"

second_name :
    commands_of second
    ≡ (fetch (codes "trilha/task-001-v1") ∷ add_tree path (codes "trilha/task-001-v1-2") ∷ [])
unfolding commands_of
second_name = refl

unfoldable removals : Options → List Command
unfolding text_eq to_lower trim_space proven_branch has_prefix digit_run task_of inspect wanted
    prune treat_all doctor
removals o = (doctor host scan o keys).1

one_orphan :
    (removals options ≡ (
      teardown (codes "runs/TASK-001/wt")
      ∷ remove_tree (codes "runs/TASK-001/wt")
      ∷ remove_dir (codes "runs/TASK-001")
      ∷ delete_branch (codes "trilha/task-001-v1-2")
      ∷ prune_trees
      ∷ []))
    × (removals (record options { prune_orphans = false }) ≡ [])
unfolding removals
one_orphan = (refl, refl)

abbrev unreadable_scan : Scan
unreadable_scan = record scan { changes = λ path. none }

-- A worktree that git's status fails in is removed without --force-unmerged.
unread_status :
    (prune host options (inspect host unreadable_scan (codes "TASK-001"))).0.action ≡ removed
unfolding prune inspect text_eq trim_space proven_branch wanted task_of
unread_status = refl
