-- ===== src/Runs.antt =====
-- Runner.Run of runner/runner.go up to the attempt loop, with runner/work.go: which tasks run, and
-- where and how.
mod Starts
mod Places
mod Tests
use trilha_runner.Prelude.{
  ℕ, ltb, ◌==◌, Bool, true, false, ◌&&◌, ◌||◌, not, List, [], ◌∷◌, ◌++◌, Option, none, some,
  is_some, Text, codes, is_empty, itoa, text_eq, if◌then◌else◌,
}
use trilha_runner.Tasks.{Status, status_eq}
use trilha_runner.Retry.{ErrorCode, no_code, sandbox_required}
use trilha_runner.Worktrees.{Target, Mode, branch_of, variant_branch}

pub data Kind : Type 0 where
  implement review hunt other : Kind

-- runner.Work: the fields that Run, readOnly and target read.
pub record Work : Type 0 where
  pub kind : Kind
  pub is_fix : Bool  -- ReviewMode is fix
  pub variant_index : ℕ
  pub has_comments : Bool
  pub foreign_code : Bool

abbrev pub is_hunt : Kind → Bool
is_hunt hunt = true
is_hunt _ = false

abbrev pub is_review : Kind → Bool
is_review review = true
is_review _ = false

abbrev pub is_valid : Kind → Bool
is_valid other = false
is_valid _ = true

unfoldable pub read_only : Work → Bool
read_only w = is_hunt w.kind || (is_review w.kind && not w.is_fix)

abbrev pub kind_name : Kind → Text
kind_name implement = codes "implement"
kind_name review = codes "review"
kind_name hunt = codes "hunt"
kind_name other = []

abbrev pub suffix_of : Option Text → Text
suffix_of none = []
suffix_of (some id) = codes "-" ++ id

-- target, for the id of a run, or none where it is not a valid one.
unfoldable pub target : Work → Option Text → Text → Target
target w run_id task =
    let is_variant = ltb 0 w.variant_index in
    let branch = if is_variant then variant_branch task w.variant_index else branch_of task in
    let key = if is_variant then task ++ (codes "-v" ++ itoa w.variant_index) else task in
    let own_key = task ++ (codes "-" ++ (kind_name w.kind ++ suffix_of run_id)) in
    if read_only w
    then record { task = task; key = own_key; branch = branch; mode = Mode.detached }
    else if is_review w.kind || w.has_comments
    then record { task = task; key = key; branch = branch; mode = Mode.existing }
    else if is_variant
    then record { task = task; key = key; branch = branch; mode = Mode.variant }
    else record { task = task; key = key; branch = branch; mode = Mode.own }

pub data Box : Type 0 where
  no_box docker other_box : Box  -- sandbox.None, sandbox.Docker, another

abbrev pub is_none : Box → Bool
is_none no_box = true
is_none _ = false

abbrev pub is_docker : Box → Bool
is_docker docker = true
is_docker _ = false

pub data Manifest : Type 0 where
  no_sandbox : Manifest
  wants_docker : Manifest
  bad_sandbox : Manifest  -- FromAgent fails

-- What the world answers on the way.
pub record Setting : Type 0 where
  pub work : Work
  pub is_continued : Bool
  pub has_live_runner : Bool
  pub moves : Status → Status → Bool  -- the protocol and the store take the move
  pub project_loads : Bool
  pub agent_loads : Bool
  pub pack_builds : Bool
  pub blocker : Option Text  -- Local.Blocker: none for its error
  pub driver_found : Bool
  pub driver_is_ai : Bool
  pub is_repo : Bool
  pub own_checks : List Text  -- the task's
  pub project_checks : List Text  -- project.verify, as the checkout has it
  pub base_checks : Option (List Text)  -- baseVerify
  pub opens : Bool  -- Manager.Open
  pub box : Box  -- the runner's sandbox
  pub manifest : Manifest
  pub prepares : Bool
  pub max_attempts : ℕ  -- the runner's, the task's and the agent's; 0 for none
  pub task_attempts : ℕ
  pub agent_attempts : ℕ

pub data Stage : Type 0 where
  driver worktree sandbox policy : Stage

-- What the attempt loop starts with.
pub record Begin : Type 0 where
  pub checks : List Text
  pub box : Box
  pub box_is_read_only : Bool
  pub has_credential : Bool  -- in the run's environment
  pub max_attempts : ℕ

-- How the set-up ends, with the status of the task in the store: not run, failed at a stage, or
-- handed to the loop.
pub data Start : Type 0 where
  refused : Status → Start
  failing : Status → Stage → ErrorCode → Start
  begun : Status → Begin → Start

module _ (s : Setting) where
  -- A move to ready that may fail.
  abbrev pub readied : Status → Status
  readied from = if s.moves from Status.ready then Status.ready else from

  abbrev pub resume_orphan : Status → Status
  resume_orphan at =
      if not (status_eq at Status.running) || s.has_live_runner then at else readied at

  abbrev pub resume_blocked : Status → Status
  resume_blocked at = if status_eq at Status.blocked && s.is_continued then readied at else at

  abbrev pub resume_review : Status → Status
  resume_review at =
      if status_eq at Status.review && (is_review s.work.kind || s.work.has_comments)
      then readied at
      else at

  abbrev pub prepared : Status → Status
  prepared at = resume_review (resume_blocked (resume_orphan at))

  -- The closure fail.
  abbrev pub fail : Status → Stage → ErrorCode → Start
  fail at stage code =
      if read_only s.work
      then failing at stage code
      else failing (if s.moves at Status.failed then Status.failed else at) stage code

  abbrev pub chosen_box : Box
  chosen_box = elim s.manifest [
    | no_sandbox ↦ s.box
    | wants_docker ↦ if is_none s.box then docker else s.box
    | bad_sandbox ↦ s.box
  ]

  abbrev pub is_bad : Manifest → Bool
  is_bad bad_sandbox = true
  is_bad _ = false

  abbrev pub attempts : ℕ
  attempts =
      if ltb 0 s.max_attempts
      then s.max_attempts
      else if ltb 0 s.task_attempts
      then s.task_attempts
      else if ltb 0 s.agent_attempts
      then s.agent_attempts
      else 3

  abbrev pub begin : List Text → Begin
  begin checks = record {
    checks = s.own_checks ++ checks;
    box = chosen_box;
    box_is_read_only = is_docker chosen_box && read_only s.work;
    has_credential = not s.work.foreign_code || not s.driver_is_ai;
    max_attempts = attempts;
  }

  -- From the worktree on, with the project's checks.
  abbrev pub open_tree : Status → List Text → Start
  open_tree at checks =
      if not s.opens
      then fail at worktree no_code
      else if is_none s.box && is_bad s.manifest
      then fail at sandbox no_code
      else if s.work.foreign_code && not (is_docker chosen_box)
      then fail at policy sandbox_required
      else if not s.prepares
      then (if s.work.foreign_code
          then fail at policy sandbox_required
          else fail at sandbox no_code)
      else begun at (begin checks)

  abbrev pub with_checks : Status → Option (List Text) → Start
  with_checks at none = fail at policy sandbox_required
  with_checks at (some checks) = open_tree at checks

  -- Once the task is running, or the run is read-only.
  abbrev pub started : Status → Start
  started at =
      if not s.driver_found
      then fail at driver no_code
      else if not s.is_repo
      then fail at worktree no_code
      else with_checks at (if s.work.foreign_code then s.base_checks else some s.project_checks)

  -- moveRunning
  abbrev pub move_running : Status → Option Text → Start
  move_running at none = refused at
  move_running at (some reason) =
      if not (is_empty reason) || not (s.moves at Status.running)
      then refused at
      else started Status.running

  abbrev pub loaded : Bool
  loaded = s.project_loads && s.agent_loads && s.pack_builds

  -- Run, for a task that is in the given status.
  unfoldable pub run_from : Status → Start
  run_from at =
      if not (is_valid s.work.kind)
      then refused at
      else if read_only s.work
      then (if loaded then started at else refused at)
      else if not (status_eq (prepared at) Status.ready)
      then refused (prepared at)
      else if not loaded
      then refused (prepared at)
      else move_running (prepared at) s.blocker
