-- ===== src/Worktrees/Keys.antt =====
-- The names of run directories in worktree/worktree.go.
use trilha_runner.Prelude.{
  ◌≤◌, ◌≡◌, refl, true, ◌||◌, [], ◌∷◌, ◌++◌, Text, codes, All, length, leb, arith, is_empty,
  has_prefix,
}
use trilha_runner.Worktrees.{task_of, digit_run, is_digit, starts_with_dash}

-- What may follow the number of a task: the end, or a dash.
abbrev pub EndsNumber : Text → Type 0
EndsNumber rest = is_empty rest || starts_with_dash rest ≡ true

digit_run_end : (rest : Text) → EndsNumber rest → digit_run rest ≡ ([], rest)
unfolding digit_run
digit_run_end [] e = refl
digit_run_end (c ∷ s) e = ground arith

digit_run-append :
    (run rest : Text)
    → All (λ c. is_digit c ≡ true) run
    → EndsNumber rest
    → digit_run (run ++ rest) ≡ (run, rest)
unfolding digit_run
digit_run-append [] rest d e = digit_run_end rest e
digit_run-append (c ∷ run) rest d e = rw (digit_run-append run rest d.1 e, d.0) refl

-- The run directories of a task, TASK-001 itself, TASK-001-v2 and any other name that goes on
-- with a dash, all belong to it, whatever its number of three digits or more.
pub task_of-append :
    (number rest : Text)
    → All (λ c. is_digit c ≡ true) number
    → 3 ≤ length number
    → EndsNumber rest
    → task_of (codes "TASK-" ++ (number ++ rest)) ≡ codes "TASK-" ++ number
unfolding task_of has_prefix
task_of-append number rest d l e =
    let three : leb 3 (length number) ≡ true = ground arith in
    rw (digit_run-append number rest d e, three, e) refl
