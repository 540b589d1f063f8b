-- ===== src/Worktrees/Doctor.antt =====
-- worktree/doctor.go: what the run directories are, and which of them are removed.
pub mod Totals
pub mod Pruning
pub mod Tallies
pub mod Listed
pub mod Counts
use trilha_runner.Prelude.{
  ℕ, zero, suc, ◌+◌, ◌*◌, ltb, leb, Bool, true, false, ◌&&◌, ◌||◌, not, List, [], ◌∷◌, ◌++◌, Option,
  none, some, Text, codes, text_eq, text_lt, is_empty, trim_space, atoi, ℤ, pos, negsuc, is_some,
  if◌then◌else◌,
}
use trilha_runner.Worktrees.{
  Host, Command, teardown, remove_tree, remove_dir, delete_branch, prune_trees, proven_branch,
  path_in, task_of,
}

pub data Class : Type 0 where
  live finished_kept orphaned metadata_only : Class

pub data Bucket : Type 0 where
  fresh recent old : Bucket

pub data Action : Type 0 where
  kept removed skipped failed : Action

-- What is said of a branch when its directory is removed.
pub data Note : Type 0 where
  no_note unmerged_note dirty_note remove_error unproven_branch branch_error branch_deleted : Note

pub record Entry : Type 0 where
  pub key : Text
  pub task : Text
  pub class : Class
  pub dir : Text
  pub worktree : Text
  pub branch : Text
  pub is_proven : Bool
  pub merged : Option Bool
  pub is_dirty : Bool
  pub age : ℕ
  pub bucket : Bucket
  pub size : ℕ
  pub pids : List ℕ
  pub action : Action
  pub note : Note

-- The operator's flags; durations are in nanoseconds, a negative one as 0.
pub record Options : Type 0 where
  pub prune_orphans : Bool
  pub prune_older_than : ℕ
  pub force_unmerged : Bool

-- What the machine says when it is asked about a run directory, beside the answers of `Host`. An
-- age in the future is 0.
pub record Scan : Type 0 where
  pub age_and_size : Text → ℕ × ℕ
  pub exists : Text → Bool  -- os.Stat of a worktree's path
  pub pid_file : Text → Option Text  -- runner.pid in the directory of a key
  pub is_alive : ℕ → Bool
  pub processes_in : Text → List ℕ  -- cwdTable.in
  pub checked_out : Text → Option Text  -- symbolic-ref --short HEAD
  pub changes : Text → Option (List Text)  -- Manager.Changes
  pub is_registered : Text → Bool  -- whether git lists the worktree, links resolved
  pub has_task_file : Text → Bool
  pub base : Text  -- BaseRef of the default branch

abbrev pub day : ℕ
day = 24 * 3600 * 1_000_000_000

abbrev pub bucket_of : ℕ → Bucket
bucket_of age = if ltb age (14 * day) then fresh else if ltb age (30 * day) then recent else old

abbrev pub is_live : Class → Bool
is_live live = true
is_live _ = false

abbrev pub is_orphaned : Class → Bool
is_orphaned orphaned = true
is_orphaned _ = false

unfoldable pub wanted : Options → Entry → Bool
wanted o e =
    if is_live e.class
    then false
    else if o.prune_orphans && is_orphaned e.class
    then true
    else ltb 0 o.prune_older_than && ltb o.prune_older_than e.age

abbrev pub is_merged : Option Bool → Bool
is_merged none = false
is_merged (some merged) = merged

module _ (h : Host) (m : Scan) where
  abbrev pub pid_in : Option Text → ℕ
  pid_in none = 0
  pid_in (some content) = elim (atoi (trim_space content)) [
    | none ↦ 0
    | some (negsuc n) ↦ 0
    | some (pos n) ↦ if ltb 0 n && m.is_alive n then n else 0
  ]

  -- livePid: the directory of the key first, then that of its task.
  abbrev pub live_pid : Text → Text → ℕ
  live_pid key task =
      let own = if is_empty key then 0 else pid_in (m.pid_file key) in
      if ltb 0 own then own else if is_empty task then 0 else pid_in (m.pid_file task)

  abbrev pub branch_at : Option Text → Text
  branch_at none = []
  branch_at (some name) = trim_space name

  abbrev pub has_changes : Option (List Text) → Bool
  has_changes none = false
  has_changes (some []) = false
  has_changes (some (x ∷ xs)) = true

  abbrev pub class_of : Text → Text → List ℕ → Class
  class_of path task (p ∷ ps) = live
  class_of path task [] =
      if not (m.exists path)
      then metadata_only
      else if not (h.has_tree path)
      then orphaned
      else if not (m.is_registered path)
      then orphaned
      else if is_empty task || not (m.has_task_file task)
      then orphaned
      else finished_kept

  unfoldable pub inspect : Text → Entry
  inspect key =
      let task = task_of key in
      let dir = h.run_dir key in
      let path = path_in dir in
      let pid = live_pid key task in
      let tree = h.has_tree path in
      let held = if m.exists path then m.processes_in path else [] in
      let pids = (if ltb 0 pid then pid ∷ [] else []) ++ held in
      let branch = if tree then branch_at (m.checked_out path) else [] in
      let merge_known = not (is_empty branch) && not (is_empty m.base) in
      let merged = h.is_ancestor (codes "refs/heads/" ++ branch) m.base in
      record {
        key = key;
        task = task;
        class = class_of path task pids;
        dir = dir;
        worktree = if m.exists path then path else [];
        branch = branch;
        is_proven = not (is_empty branch) && text_eq (proven_branch h key) branch;
        merged = if merge_known then some merged else none;
        is_dirty = tree && has_changes (m.changes path);
        age = (m.age_and_size dir).0;
        bucket = bucket_of (m.age_and_size dir).0;
        size = (m.age_and_size dir).1;
        pids = pids;
        action = kept;
        note = no_note;
      }

module _ (h : Host) where
  -- The branch of a removed directory: deleted when the runner proved that it made it.
  abbrev pub branch_end : Entry → Note × List Command
  branch_end e =
      let delete = delete_branch e.branch in
      if is_empty e.branch
      then (no_note, [])
      else if not e.is_proven
      then (unproven_branch, [])
      else (if h.succeeds delete then branch_deleted else branch_error, delete ∷ [])

  abbrev pub tree_end : Entry → List Command
  tree_end e =
      if is_empty e.worktree
      then []
      else if h.has_tree e.worktree
      then teardown e.worktree ∷ remove_tree e.worktree ∷ []
      else teardown e.worktree ∷ []

  unfoldable pub prune : Options → Entry → Entry × List Command
  prune o e =
      let unmerged = not (is_empty e.branch) && not (is_merged e.merged) in
      let remove = remove_dir e.dir in
      let last = branch_end e in
      if unmerged && not o.force_unmerged
      then (record e { action = skipped; note = unmerged_note }, [])
      else if e.is_dirty && not o.force_unmerged
      then (record e { action = skipped; note = dirty_note }, [])
      else if not (h.succeeds remove)
      then (record e { action = failed; note = remove_error }, tree_end e ++ (remove ∷ []))
      else (record e { action = removed; note = last.0 }, tree_end e ++ (remove ∷ last.1))

module _ (h : Host) (m : Scan) where
  -- One run directory.
  abbrev pub treat : Options → Text → Entry × List Command
  treat o key =
      if wanted o (inspect h m key) then prune h o (inspect h m key) else (inspect h m key, [])
