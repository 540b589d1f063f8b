-- ===== src/Queue/Tests.antt =====
-- The theorems on the local queue at concrete inputs.
use trilha_runner.Prelude.{
  trim_space, trim_left, trim_right, is_space, contains_byte, ◌≡◌, refl, ◌++◌, List, [], ◌∷◌, some,
  Text, codes,
}
use trilha_runner.Tasks.{Status, Task, ok}
use trilha_runner.Tasks.Samples.{sample, sample_task}
use trilha_runner.Queue.{item, blocked, next, blocker, parse_repository}
use trilha_runner.Queue.Blocking.{Blocks, blocker-Blocks}
use trilha_runner.Queue.Next.{Outcome, next-Outcome}
use trilha_runner.Queue.Repositories.{parse_repository_append}

abbrev repositories : List (Text × Text)
repositories = (codes "trilha", codes "../trilha") ∷ []

-- A finished task, one that waits for it and for another checkout, and one that waits for an
-- alias that is not configured.
abbrev tasks : List (Task Text)
tasks =
    sample_task (codes "TASK-001") Status.done []
    ∷ sample_task (codes "TASK-002") Status.ready (codes "other:TASK-001" ∷ [])
    ∷ sample_task (codes "TASK-003") Status.ready (codes "TASK-001" ∷ codes "trilha:TASK-007" ∷ [])
    ∷ []

next_third : next sample repositories (ok tasks) ≡ item (codes "TASK-003")
unfolding next sample
next_third = refl

next_waiting :
    next sample [] (ok tasks) ≡ blocked (codes "TASK-002") (codes "waiting:other:TASK-001")
unfolding next sample
next_waiting = refl

blocker-Blocks_example :
    Blocks sample [] tasks
      (codes "TASK-001" ∷ codes "trilha:TASK-007" ∷ [])
      (blocker sample [] tasks (codes "TASK-001" ∷ codes "trilha:TASK-007" ∷ []))
blocker-Blocks_example =
    blocker-Blocks sample [] tasks (codes "TASK-001" ∷ codes "trilha:TASK-007" ∷ [])

next-Outcome_example : Outcome sample repositories tasks tasks (next sample repositories (ok tasks))
next-Outcome_example =
    next-Outcome sample repositories tasks
      (tt, (((λ e. cc), tt), (((λ e. cc), ((λ e. cc), tt)), tt)))

parse_repository_append_example :
    parse_repository (codes " trilha" ++ codes "=../trilha ")
    ≡ some (trim_space (codes " trilha"), trim_space (codes "../trilha "))
unfolding trim_space trim_left trim_right is_space contains_byte
parse_repository_append_example =
    parse_repository_append (codes " trilha") (codes "../trilha ") (λ e. cc) (λ e. cc) refl refl

trimmed_flag :
    parse_repository (codes " trilha = ../trilha ") ≡ some (codes "trilha", codes "../trilha")
unfolding parse_repository trim_space trim_left trim_right is_space
trimmed_flag = refl
