-- ===== src/Worktrees/Safety.antt =====
-- What opening a worktree may do to the branches of a repository.
use trilha_runner.Prelude.{
  ◌≡◌, true, false, ◌&&◌, not, Text, All, All-append, if_ind, arith, ℕ, zero, suc, ◌+◌, text_eq,
}
use trilha_runner.Worktrees.{
  Mode, own, variant, existing, detached, Target, Worktree, Command, Host, Opened, fetch,
  force_branch, add_tree, add_branch, add_detached, remove_tree, write_proof, remote_ref, head_ref,
  candidate, proven_branch, create, fetched, try_variants, open_own, open_variant, open_existing,
  open_detached, detached_ref, open_as, wanted_tree, open_target,
}

module _ (h : Host) (key path : Text) where
  -- The commands that a mode may give for the run directory `key` and its worktree at `path`.
  abbrev pub Allowed : Mode → Command → Type 0
  Allowed m (fetch branch) = Unit
  Allowed existing (force_branch branch ref) =
      (ref ≡ remote_ref branch) × (h.is_ancestor branch ref ≡ true)
  Allowed own (add_tree p branch) = (p ≡ path) × (h.is_local branch ≡ true)
  Allowed variant (add_tree p branch) =
      (p ≡ path) × (h.is_local branch ≡ true) × (text_eq (proven_branch h key) branch ≡ true)
  Allowed existing (add_tree p branch) = (p ≡ path) × (h.is_local branch ≡ true)
  Allowed own (add_branch branch p start) =
      (p ≡ path) × (start ≡ head_ref) × (h.is_local branch ≡ false)
  Allowed variant (add_branch branch p start) =
      (p ≡ path) × (start ≡ head_ref) × (h.is_local branch ≡ false) × (h.is_remote branch ≡ false)
  Allowed existing (add_branch branch p start) =
      (p ≡ path)
      × (start ≡ remote_ref branch)
      × (h.is_local branch ≡ false)
      × (h.is_remote branch ≡ true)
  Allowed own (write_proof k branch) =
      (k ≡ key)
      × (h.is_local branch ≡ false)
      × (h.succeeds (add_branch branch path head_ref) ≡ true)
  Allowed variant (write_proof k branch) =
      (k ≡ key)
      × (h.is_local branch ≡ false)
      × (h.is_remote branch ≡ false)
      × (h.succeeds (add_branch branch path head_ref) ≡ true)
  Allowed detached (add_detached p ref) = p ≡ path
  Allowed detached (remove_tree p) = p ≡ path
  Allowed _ _ = ⊥

  abbrev pub AllAllowed : Mode → Opened → Type 0
  AllAllowed m o = All (Allowed m) o.commands

  fetched-AllAllowed : (m : Mode) (branch : Text) → All (Allowed m) (fetched h branch)
  fetched-AllAllowed own branch = ground arith
  fetched-AllAllowed variant branch = ground arith
  fetched-AllAllowed existing branch = ground arith
  fetched-AllAllowed detached branch = ground arith

module _ (h : Host) (w : Worktree) where
  abbrev Safe : Mode → Opened → Type 0
  Safe = AllAllowed h w.key w.path

  open_own-Safe : Safe own (open_own h w)
  unfolding open_own create
  open_own-Safe = ground arith

  open_existing-Safe : Safe existing (open_existing h w)
  unfolding open_existing
  open_existing-Safe = ground arith

  open_detached-Safe : Safe detached (open_detached h w)
  unfolding open_detached detached_ref
  open_detached-Safe = ground arith

  create-Safe :
      (name : Text)
      → not (h.is_local name) && not (h.is_remote name) ≡ true
      → Safe variant (create h (record w { branch = name }))
  unfolding create
  create-Safe name free = ground arith

  try_variants-Safe : (left n : ℕ) → Safe variant (try_variants h w left n)
  unfolding try_variants
  try_variants-Safe zero n = tt
  try_variants-Safe (suc left) n =
      let name = candidate w.branch n in
      if_ind (Safe variant) (not (h.is_local name) && not (h.is_remote name))
        (λ free. create-Safe name free)
        (λ _.
          if_ind (Safe variant) (h.is_local name && text_eq (proven_branch h w.key) name)
            (λ ours. ground arith) (λ _. try_variants-Safe left (n + 1)))

  open_variant-Safe : Safe variant (open_variant h w)
  unfolding open_variant
  open_variant-Safe =
      if_ind (Safe variant) (h.has_tree w.path) (λ _. tt)
        (λ _.
          All-append (Allowed h w.key w.path variant) (fetched h w.branch)
            (try_variants h w 20 1).commands (fetched-AllAllowed h w.key w.path variant w.branch)
            (try_variants-Safe 20 1))

  open_as-Safe : (m : Mode) → Safe m (open_as h m w)
  open_as-Safe own = open_own-Safe
  open_as-Safe variant = open_variant-Safe
  open_as-Safe existing = open_existing-Safe
  open_as-Safe detached = open_detached-Safe

-- Opening a worktree makes a branch only where none of its name is here: from HEAD for a task's
-- own branch, from HEAD and with none on origin for a variant, and from origin's for an existing
-- one. It moves a branch only in mode `existing`, forward to origin's. It checks out a variant's
-- branch only when the proof file names it, writes that proof only after it made the branch, and a
-- detached checkout makes or moves no branch at all.
pub open_target-Safe :
    (h : Host) (t : Target)
    → AllAllowed h (wanted_tree h t).key (wanted_tree h t).path t.mode (open_target h t)
unfolding open_target
open_target-Safe h t =
    let w = wanted_tree h t in
    if_ind (AllAllowed h w.key w.path t.mode) (h.makes_dir (h.run_dir w.key))
      (λ _. open_as-Safe h w t.mode) (λ _. tt)
