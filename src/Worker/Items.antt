-- ===== src/Worker/Items.antt =====
-- cmd/trilha-runner/worker.go: one claimed item, and the report of its run.
pub mod Routes
use trilha_runner.Prelude.{
  ℕ, zero, suc, ◌+◌, leb, ltb, ◌==◌, Bool, true, false, ◌&&◌, ◌||◌, not, List, [], ◌∷◌, ◌++◌,
  Option, none, some, is_some, Text, codes, text_eq, is_empty, if◌then◌else◌,
}
use trilha_runner.Worker.Outbox.{is_retryable}

-- stringsCut at the first colon.
unfoldable pub strings_cut : Text → Text × Text × Bool
strings_cut [] = ([], [], false)
strings_cut (c ∷ s) =
    let (before, after, found) = strings_cut s in
    if c == b':'
    then ([], s, true)
    else if found
    then (c ∷ before, after, true)
    else ([], [], false)

abbrev is_done : Option Text → Bool
is_done none = false
is_done (some status) = text_eq status (codes "done")

-- remoteDependencyBlocker, for a control plane that answers an alias and an id with a status.
unfoldable pub remote_dependency_blocker : (Text → Text → Option Text) → List Text → Text
unfolding strings_cut text_eq
remote_dependency_blocker status [] = []
remote_dependency_blocker status (d ∷ ds) =
    let (alias, id, ok) = strings_cut d in
    let rest = remote_dependency_blocker status ds in
    if ok && not (is_done (status alias id)) then codes "waiting:" ++ d else rest

pub record Bundle : Type 0 where
  pub depends_on : List Text
  pub repository : Text
  pub default_branch : Text

pub data BundleAnswer : Type 0 where
  bundled : Bundle → BundleAnswer
  no_bundle : BundleAnswer  -- queue.ErrNoBundle
  bundle_failed : BundleAnswer

pub record Item : Type 0 where
  pub waiting : Text
  pub foreign_code : Bool

pub record WorkerOptions : Type 0 where
  pub workspace_root : Text
  pub repository : Text
  pub default_branch : Text
  pub push : Bool

-- What Runner.Run returns, as far as the worker reads it.
pub record RunEnd : Type 0 where
  pub has_error : Bool
  pub result : Option Bool  -- whether the result is of a read-only run

pub data ItemError : Type 0 where
  no_error no_bundle_answer needs_workspace_root other_repository other_branch no_checkout no_runner
        run_failed push_failed :
      ItemError

-- What the world answers while an item is worked on.
pub record Answers : Type 0 where
  pub bundle : BundleAnswer
  pub status : Text → Text → Option Text  -- DependencyStatus
  pub checkout : Bool  -- EnsureRepository and Materialize
  pub runner : Bool  -- newRunnerAt
  pub run : Bool → Text → RunEnd  -- in the bundle's checkout or not, on a base branch
  pub pushed : Bool

-- How an item ends: `ran` has the branch and whether it ran in the checkout of its bundle.
pub record Outcome : Type 0 where
  pub blocked : Text
  pub error : ItemError
  pub ran : Option (Bool × Text)
  pub has_result : Bool
  pub tried_push : Bool

-- Whether a run left a result of its own work.
abbrev pub is_own : RunEnd → Bool
is_own end = elim end.result [ none ↦ false | some read_only ↦ not read_only ]

abbrev pub outcome : ItemError → Outcome
outcome e = record { blocked = []; error = e; ran = none; has_result = false; tried_push = false }

abbrev pub chosen : Text → Text → Text
chosen own wanted = if is_empty wanted then own else wanted

-- A wanted value that the bundle contradicts.
abbrev pub differs : Text → Text → Bool
differs own wanted = not (is_empty wanted) && not (is_empty own) && not (text_eq own wanted)

module _ (o : WorkerOptions) (item : Item) (a : Answers) where
  -- After the run: what is pushed.
  abbrev pub after_run : Bool × Text → RunEnd → Outcome
  after_run at end =
      let base = record (outcome no_error) { ran = some at; has_result = is_some end.result } in
      let pushed = record base {
        error = if a.pushed then no_error else push_failed;
        tried_push = true;
      } in
      if end.has_error
      then record base { error = run_failed }
      else if o.push && is_own end && not item.foreign_code
      then pushed
      else base

  abbrev pub run_item : Bool → Text → Outcome
  run_item in_bundle branch = after_run (in_bundle, branch) (a.run in_bundle branch)

  abbrev pub with_bundle : Bundle → Outcome
  with_bundle b =
      let blocker = remote_dependency_blocker a.status b.depends_on in
      if not (is_empty blocker)
      then record (outcome no_error) { blocked = blocker }
      else if is_empty o.workspace_root
      then outcome needs_workspace_root
      else if differs b.default_branch o.default_branch
      then outcome other_branch
      else if differs b.repository o.repository
      then outcome other_repository
      else if not a.checkout
      then outcome no_checkout
      else if not a.runner
      then outcome no_runner
      else run_item true (chosen b.default_branch o.default_branch)

  abbrev pub with_answer : BundleAnswer → Outcome
  with_answer (bundled b) = with_bundle b
  with_answer no_bundle = run_item false o.default_branch
  with_answer bundle_failed = outcome no_bundle_answer

  -- executeWorkerItem
  unfoldable pub execute_item : Outcome
  execute_item =
      if not (is_empty item.waiting)
      then record (outcome no_error) { blocked = item.waiting }
      else with_answer a.bundle

-- What resultReport reads of a result, and the part of the report that it decides.
pub record RunResult : Type 0 where
  pub passed : Bool
  pub status : Text
  pub needs_input : Bool

pub record Report : Type 0 where
  pub passed : Bool
  pub status : Text
  pub error : Text

abbrev pub report_of : Option RunResult → Report
report_of none = record { passed = false; status = []; error = [] }
report_of (some r) =
    if r.needs_input
    then record { passed = false; status = codes "needs_input"; error = [] }
    else record { passed = r.passed; status = r.status; error = [] }

unfoldable pub result_report : Option RunResult → Option Text → Report
result_report r none = report_of r
result_report r (some message) =
    let report = report_of r in
    record report {
      error = message;
      status = if is_empty report.status then codes "failed" else report.status;
    }
