-- ===== src/Worktrees/Teardown.antt =====
-- worktree/teardown.go: the processes in a worktree are stopped before it goes.
use trilha_runner.Prelude.{
  ℕ, zero, suc, ◌+◌, ltb, Bool, true, false, ◌||◌, not, List, [], ◌∷◌, ◌++◌, Option, none, some,
  Text, codes, text_eq, has_prefix, if◌then◌else◌,
}

pub data Signal : Type 0 where
  term : ℕ → Signal
  kill : ℕ → Signal

-- A process of the table, without the runner's own, and its directory.
pub record Process : Type 0 where
  pub pid : ℕ
  pub cwd : Text

-- The table of processes, none when it cannot be had; which processes live at a check of the wait,
-- and after it; the milliseconds at a check, and whether the context has ended by the next.
pub record Scene : Type 0 where
  pub table : Option (List Process)
  pub alive : ℕ → ℕ → Bool
  pub alive_after : ℕ → Bool
  pub clock : ℕ → ℕ
  pub ended : ℕ → Bool

abbrev pub teardown_grace : ℕ
teardown_grace = 1_500

unfoldable pub is_inside : Text → Text → Bool
unfolding text_eq has_prefix
is_inside root cwd = text_eq cwd root || has_prefix cwd (root ++ codes "/")

unfoldable pub insert_pid : ℕ → List ℕ → List ℕ
insert_pid pid [] = pid ∷ []
insert_pid pid (p ∷ pids) =
    let rest = insert_pid pid pids in if ltb p pid then p ∷ rest else pid ∷ p ∷ pids

-- in of cwdTable: the processes inside a directory, in order.
unfoldable pub pids_in : Text → List Process → List ℕ
unfolding is_inside insert_pid
pids_in root [] = []
pids_in root (p ∷ table) =
    let rest = pids_in root table in if is_inside root p.cwd then insert_pid p.pid rest else rest

unfoldable pub some_alive : (ℕ → Bool) → List ℕ → Bool
some_alive alive [] = false
some_alive alive (pid ∷ pids) = alive pid || some_alive alive pids

abbrev pub terms : List ℕ → List Signal
terms [] = []
terms (pid ∷ pids) = term pid ∷ terms pids

-- The last loop of Teardown.
unfoldable pub kills : (ℕ → Bool) → List ℕ → List Signal
kills alive [] = []
kills alive (pid ∷ pids) =
    let rest = kills alive pids in if alive pid then kill pid ∷ rest else rest

-- The wait of Teardown from a check on: whether every process exited. The fuel is for the checks.
unfoldable pub all_exit : Scene → List ℕ → ℕ → ℕ → Bool
unfolding some_alive
all_exit s pids zero n = false
all_exit s pids (suc left) n =
    let rest = all_exit s pids left (n + 1) in
    if not (ltb (s.clock n) teardown_grace)
    then false
    else if not (some_alive (s.alive n) pids)
    then true
    else if s.ended n
    then false
    else rest

abbrev pub checks : ℕ
checks = 31

unfoldable pub stop : Scene → List ℕ → List Signal
unfolding all_exit kills
stop s [] = []
stop s (pid ∷ pids) =
    let all = pid ∷ pids in
    if all_exit s all checks 0 then terms all else terms all ++ kills s.alive_after all

-- Teardown of a directory: the signals, in order.
unfoldable pub teardown_signals : Scene → Text → List Signal
unfolding stop pids_in
teardown_signals s root = elim s.table [ none ↦ [] | some table ↦ stop s (pids_in root table) ]
