-- ===== src/Worktrees/Doctor/Pruning.antt =====
-- What the doctor of worktree/doctor.go may remove.
use trilha_runner.Prelude.{◌<◌, ◌≡◌, ◌⊎◌, none, true, false, List, [], some, Text, Any, is_empty}
use trilha_runner.Worktrees.{
  Command, Host, remove_tree, teardown, remove_dir, delete_branch, prune_trees, path_in,
}
use trilha_runner.Worktrees.Doctor.{Entry, Options, Scan, inspect, is_live, is_orphaned}

module _ (h : Host) (m : Scan) (o : Options) where
  -- What an entry must be for the doctor to touch its directory: no process holds it, a flag asks
  -- for it, and its work is merged and committed unless a flag gives it up.
  abbrev pub MayPrune : Entry → Type 0
  MayPrune e =
      (is_live e.class ≡ false)
      × (((o.prune_orphans ≡ true) × (is_orphaned e.class ≡ true))
          ⊎ ((0 < o.prune_older_than) × (o.prune_older_than < e.age)))
      × ((o.force_unmerged ≡ true)
          ⊎ (((is_empty e.branch ≡ true) ⊎ (e.merged ≡ some true)) × (e.is_dirty ≡ false)))

  -- A command of the entry's own: on its directory, its worktree, or the branch that it proves
  -- to have made once the directory is gone.
  abbrev pub IsOwn : Entry → Command → Type 0
  IsOwn e (teardown path) = path ≡ e.worktree
  IsOwn e (remove_tree path) = path ≡ e.worktree
  IsOwn e (remove_dir dir) = dir ≡ e.dir
  IsOwn e (delete_branch branch) =
      (branch ≡ e.branch) × (e.is_proven ≡ true) × (h.succeeds (remove_dir e.dir) ≡ true)
  IsOwn e _ = ⊥

  -- Git's status of the worktree of a key shows no change, or there is no worktree; or git's status
  -- failed, which Doctor takes for no change.
  abbrev pub ShowsNone : Text → Type 0
  ShowsNone key =
      (h.has_tree (path_in (h.run_dir key)) ≡ false)
      ⊎ (m.changes (path_in (h.run_dir key)) ≡ some [])
      ⊎ (m.changes (path_in (h.run_dir key)) ≡ none)

  abbrev pub Licensed : Text → Command → Type 0
  Licensed key c =
      ((inspect h m key).pids ≡ [])
      × MayPrune (inspect h m key)
      × ((o.force_unmerged ≡ true) ⊎ ShowsNone key)
      × IsOwn (inspect h m key) c

  -- A command for one of the run directories.
  abbrev pub ForOne : List Text → Command → Type 0
  ForOne keys c = Any (λ key. Licensed key c) keys

  abbrev pub IsPruneTrees : Command → Type 0
  IsPruneTrees c = c ≡ prune_trees
