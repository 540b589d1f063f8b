-- ===== src/Worktrees.antt =====
-- worktree/worktree.go and target.go: the checkout of a run, and the branch it works on. Git and
-- the file system are asked through a record of answers; what is done to them is a list of
-- commands, oldest first.
pub mod Candidates
pub mod Keys
mod Safety
mod Tests
pub mod Doctor
pub mod Teardown
pub mod Inside
pub mod Stopping
mod Stops
use trilha_runner.Prelude.{
  drop, length, leb, ◌==◌, ℕ, zero, suc, ◌+◌, ltb, Bool, true, false, ◌&&◌, ◌||◌, not, List, [],
  ◌∷◌, ◌++◌, Option, none, some, Text, codes, text_eq, is_empty, trim_space, to_lower, has_prefix,
  itoa, if◌then◌else◌,
}

pub data Mode : Type 0 where
  own variant existing detached : Mode

pub record Target : Type 0 where
  pub task : Text
  pub key : Text
  pub branch : Text
  pub mode : Mode

pub record Worktree : Type 0 where
  pub task : Text
  pub path : Text
  pub branch : Text
  pub key : Text
  pub is_detached : Bool
  pub ref : Text
  pub head : Text

pub data Command : Type 0 where
  fetch : Text → Command  -- of a branch, from origin
  force_branch : Text → Text → Command  -- branch -f BRANCH REF
  add_tree : Text → Text → Command  -- worktree add PATH BRANCH
  add_branch : Text → Text → Text → Command  -- worktree add -b BRANCH PATH START
  add_detached : Text → Text → Command  -- worktree add --detach PATH REF
  remove_tree : Text → Command  -- worktree remove --force PATH
  write_proof : Text → Text → Command  -- the proof file of a key, for a branch
  teardown : Text → Command  -- of the processes in a worktree
  remove_dir : Text → Command  -- os.RemoveAll
  delete_branch : Text → Command  -- branch -D
  prune_trees : Command  -- worktree prune

-- What git and the file system say: of the branches, as the fetch leaves them.
pub record Host : Type 0 where
  pub run_dir : Text → Text  -- filepath.Join(Layout.Runs(), key)
  pub makes_dir : Text → Bool  -- os.MkdirAll
  pub has_tree : Text → Bool  -- whether .git is in a path
  pub proof : Text → Option Text  -- the content of the proof file of a key
  pub has_origin : Bool
  pub is_local : Text → Bool
  pub is_remote : Text → Bool
  pub is_ancestor : Text → Text → Bool
  pub head : Text → Text × Bool  -- rev-parse HEAD in a path, once it is there: output, success
  pub succeeds : Command → Bool

pub data OpenError : Type 0 where
  no_dir git_failed no_proof no_branch all_taken : OpenError

pub record Opened : Type 0 where
  pub tree : Worktree
  pub error : Option OpenError
  pub commands : List Command

-- Branch: the branch of a task.
abbrev pub branch_of : Text → Text
branch_of task = codes "trilha/" ++ to_lower task

abbrev pub variant_branch : Text → ℕ → Text
variant_branch task n = branch_of task ++ (codes "-v" ++ itoa n)

abbrev pub remote_ref : Text → Text
remote_ref branch = codes "refs/remotes/origin/" ++ branch

abbrev pub head_ref : Text
head_ref = codes "HEAD"

-- maxVariantSuffix
abbrev pub max_variant_suffix : ℕ
max_variant_suffix = 20

-- The n-th name that openVariant tries for a branch.
unfoldable pub candidate : Text → ℕ → Text
candidate base n = if ltb 1 n then base ++ (codes "-" ++ itoa n) else base

abbrev pub is_digit : ℕ → Bool
is_digit c = leb b'0' c && leb c b'9'

-- The digits that a text starts with, and the rest.
unfoldable digit_run : Text → Text × Text
digit_run [] = ([], [])
digit_run (c ∷ s) =
    let (run, rest) = digit_run s in if is_digit c then (c ∷ run, rest) else ([], c ∷ s)

abbrev starts_with_dash : Text → Bool
starts_with_dash [] = false
starts_with_dash (c ∷ s) = c == b'-'

-- TaskOf: the match of ^(TASK-[0-9]{3,})(-|$).
unfoldable pub task_of : Text → Text
unfolding has_prefix digit_run
task_of key =
    let (run, rest) = digit_run (drop 5 key) in
    if has_prefix key (codes "TASK-")
      && leb 3 (length run)
      && (is_empty rest || starts_with_dash rest)
    then codes "TASK-" ++ run
    else []

abbrev pub path_in : Text → Text
path_in dir = dir ++ codes "/wt"

module _ (h : Host) where
  abbrev pub proven_in : Option Text → Text
  proven_in none = []
  proven_in (some content) = trim_space content

  -- ProvenBranch: what the proof file of a run's directory names, or "".
  unfoldable pub proven_branch : Text → Text
  proven_branch key = proven_in (h.proof key)

  abbrev pub opened : Worktree → Option OpenError → List Command → Opened
  opened w e commands = record { tree = w; error = e; commands = commands }

  -- One command of git that ends the opening.
  abbrev pub git_ends : Worktree → Command → Opened
  git_ends w c = opened w (if h.succeeds c then none else some git_failed) (c ∷ [])

  -- A branch from HEAD, with the proof that the runner made it.
  unfoldable pub create : Worktree → Opened
  create w =
      let add = add_branch w.branch w.path head_ref in
      let prove = write_proof w.key w.branch in
      if not (h.succeeds add)
      then opened w (some git_failed) (add ∷ [])
      else opened w (if h.succeeds prove then none else some no_proof) (add ∷ prove ∷ [])

  abbrev pub before : List Command → Opened → Opened
  before more o = record o { commands = more ++ o.commands }

  -- fetch does nothing without an origin, and never fails.
  abbrev pub fetched : Text → List Command
  fetched branch = if h.has_origin then fetch branch ∷ [] else []

  unfoldable pub open_own : Worktree → Opened
  open_own w =
      if h.has_tree w.path
      then opened w none []
      else if h.is_local w.branch
      then git_ends w (add_tree w.path w.branch)
      else create w

  -- The search of openVariant, from the candidate `n` on, with `left` candidates to try.
  unfoldable pub try_variants : Worktree → ℕ → ℕ → Opened
  try_variants w zero n = opened w (some all_taken) []
  try_variants w (suc left) n =
      let name = candidate w.branch n in
      let w' = record w { branch = name } in
      let rest = try_variants w left (n + 1) in
      if not (h.is_local name) && not (h.is_remote name)
      then create w'
      else if h.is_local name && text_eq (proven_branch w.key) name
      then git_ends w' (add_tree w.path name)
      else rest

  unfoldable pub open_variant : Worktree → Opened
  open_variant w =
      let proven = proven_branch w.key in
      if h.has_tree w.path
      then opened (if is_empty proven then w else record w { branch = proven }) none []
      else before (fetched w.branch) (try_variants w max_variant_suffix 1)

  unfoldable pub open_existing : Worktree → Opened
  open_existing w =
      let forward = h.is_remote w.branch && h.is_ancestor w.branch (remote_ref w.branch) in
      let forced = if forward then force_branch w.branch (remote_ref w.branch) ∷ [] else [] in
      let add = add_branch w.branch w.path (remote_ref w.branch) in
      if h.has_tree w.path
      then opened w none []
      else before (fetched w.branch) (
          if h.is_local w.branch
          then before forced (git_ends w (add_tree w.path w.branch))
          else if h.is_remote w.branch
          then git_ends w add
          else opened w (some no_branch) [])

  -- The ref whose tip a detached checkout takes.
  unfoldable pub detached_ref : Text → Option Text
  detached_ref branch =
      let ahead = h.is_ancestor branch (remote_ref branch) in
      if h.is_local branch && h.is_remote branch && ahead
      then some (remote_ref branch)
      else if h.is_local branch
      then some (codes "refs/heads/" ++ branch)
      else if h.is_remote branch
      then some (remote_ref branch)
      else none

  abbrev pub with_head : Worktree → Text × Bool → List Command → Opened
  with_head w (out, good) commands =
      opened (record w { is_detached = true; head = trim_space out })
        (if good then none else some git_failed) commands

  abbrev pub add_at : Worktree → List Command → Opened
  add_at w commands =
      let add = add_detached w.path w.ref in
      if h.succeeds add
      then with_head w (h.head w.path) (commands ++ (add ∷ []))
      else opened w (some git_failed) (commands ++ (add ∷ []))

  abbrev pub checkout_at : Worktree → Option Text → Opened
  checkout_at w none = opened w (some no_branch) []
  checkout_at w (some ref) =
      let w' = record w { ref = ref } in
      let remove = remove_tree w.path in
      if not (h.has_tree w.path)
      then add_at w' []
      else if h.succeeds remove
      then add_at w' (remove ∷ [])
      else opened w' (some git_failed) (remove ∷ [])

  unfoldable pub open_detached : Worktree → Opened
  open_detached w = before (fetched w.branch) (checkout_at w (detached_ref w.branch))

  abbrev pub open_as : Mode → Worktree → Opened
  open_as own = open_own
  open_as variant = open_variant
  open_as existing = open_existing
  open_as detached = open_detached

  -- The worktree that Open starts from, defaults filled in.
  abbrev pub wanted_tree : Target → Worktree
  wanted_tree t =
      let key = if is_empty t.key then t.task else t.key in
      record {
        task = t.task;
        path = path_in (h.run_dir key);
        branch = if is_empty t.branch then branch_of t.task else t.branch;
        key = key;
        is_detached = false;
        ref = [];
        head = [];
      }

  -- Open.
  unfoldable pub open_target : Target → Opened
  open_target t =
      let w = wanted_tree t in
      if h.makes_dir (h.run_dir w.key) then open_as t.mode w else opened w (some no_dir) []
