-- ===== src/Worktrees/Stopping.antt =====
-- The processes that worktree/teardown.go stops, and how.
use trilha_runner.Prelude.{
  map, ℕ, ◌+◌, ◌≤◌, Bool, true, false, List, [], ◌∷◌, ◌++◌, ◌⊎◌, Option, none, some, Text, All, ◌≡◌,
}
use trilha_runner.Worktrees.Teardown.{Signal, Process, Scene, teardown_grace, term, kill}
use trilha_runner.Worktrees.Inside.{Holds, HasAll, IsAscending}

abbrev pub pid_of : Signal → ℕ
pid_of (term pid) = pid
pid_of (kill pid) = pid

-- The wait ended late: past the grace, or with the context.
abbrev pub IsOver : Scene → Type 0
IsOver s = (n : ℕ) × ((teardown_grace ≤ s.clock n) ⊎ (s.ended n ≡ true))

-- The processes of a list that are alive, each with a SIGKILL.
abbrev pub Killed : (ℕ → Bool) → List ℕ → List Signal → Type 0
Killed alive [] signals = signals ≡ []
Killed alive (pid ∷ pids) signals =
    ((alive pid ≡ false) × Killed alive pids signals)
    ⊎ ((alive pid ≡ true)
        × ((rest : List Signal) × (signals ≡ kill pid ∷ rest) × Killed alive pids rest))

-- Every process got SIGTERM first; then all had exited at some check, or the wait was over and those
-- still alive got SIGKILL.
abbrev pub IsOrderly : Scene → List ℕ → List Signal → Type 0
IsOrderly s pids signals =
    ((signals ≡ map term pids) × ((n : ℕ) × All (λ pid. s.alive n pid ≡ false) pids))
    ⊎ (((killed : List Signal) × (signals ≡ map term pids ++ killed)
          × Killed s.alive_after pids killed)
        × IsOver s)

-- The clock goes on by fifty milliseconds or more from one check to the next.
abbrev pub IsClock : Scene → Type 0
IsClock s = (n : ℕ) → s.clock n + 50 ≤ s.clock (n + 1)

abbrev WaitEnds : Scene → List ℕ → Bool → Type 0
WaitEnds s pids true = (n : ℕ) × All (λ pid. s.alive n pid ≡ false) pids
WaitEnds s pids false = IsOver s

-- A teardown without a table, or with no process inside the directory, signals nothing; else there
-- is a list of the processes of the table inside the directory, of all of them and in ascending
-- order, that it treats in order.
abbrev pub TornDown : Scene → Text → Option (List Process) → List Signal → Type 0
TornDown s root none signals = signals ≡ []
TornDown s root (some table) signals =
    All (λ x. Holds root table (pid_of x)) signals
    × ((pids : List ℕ) × All (Holds root table) pids
        × HasAll root table pids
        × IsAscending pids
        × (((pids ≡ []) × (signals ≡ [])) ⊎ IsOrderly s pids signals))
