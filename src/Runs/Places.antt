-- ===== src/Runs/Places.antt =====
-- Where a run works.
use trilha_runner.Prelude.{
  append_nil, ◌≤◌, ◌≡◌, refl, subst, true, ◌||◌, [], ◌∷◌, ◌++◌, Option, Text, codes, All, length,
  if_ind, if◌then◌else◌, itoa, ltb, arith,
}
use trilha_runner.Worktrees.{Target, Mode, task_of, is_digit}
use trilha_runner.Worktrees.Keys.{task_of-append}
use trilha_runner.Runs.{Work, read_only, is_review, target, kind_name, suffix_of}

module _ (w : Work) (run_id : Option Text) (number : Text)
    (digits : All (λ c. is_digit c ≡ true) number) (long : 3 ≤ length number) where
  abbrev pub task : Text
  task = codes "TASK-" ++ number

  -- The directory of a place is the task's, and a run that may change nothing has a checkout
  -- without a branch of its own.
  abbrev pub IsPlaced : Target → Type 0
  IsPlaced t = (task_of t.key ≡ task) × ((read_only w ≡ true) → t.mode ≡ Mode.detached)

  keyed : (rest : Text) → task_of (task ++ (b'-' ∷ rest)) ≡ task
  keyed rest = task_of-append number (b'-' ∷ rest) digits long refl

  plain : task_of task ≡ task
  plain =
      subst (λ n. task_of (codes "TASK-" ++ n) ≡ task) (append_nil number)
        (task_of-append number [] digits long refl)

  variant_key :
      task_of (if ltb 0 w.variant_index then task ++ (codes "-v" ++ itoa w.variant_index) else task)
      ≡ task
  variant_key =
      if_ind (λ (k : Text). task_of k ≡ task) (ltb 0 w.variant_index)
        (λ _. keyed (b'v' ∷ itoa w.variant_index)) (λ _. plain)

  -- Every run of a task TASK-nnn of three digits or more works in a directory that TaskOf gives back to that task, whatever its
  -- kind, its variant and its id, and a read-only run in a detached checkout.
  pub target-IsPlaced : IsPlaced (target w run_id task)
  unfolding target
  target-IsPlaced =
      let own = keyed (kind_name w.kind ++ suffix_of run_id) in
      if_ind IsPlaced (read_only w) (λ _. (own, λ _. refl))
        (λ no_.
          if_ind IsPlaced (is_review w.kind || w.has_comments)
            (λ _. (variant_key, λ ro. absurd (ground (arith, ro, no_))))
            (λ _.
              if_ind IsPlaced (ltb 0 w.variant_index)
                (λ _. (variant_key, λ ro. absurd (ground (arith, ro, no_))))
                (λ _. (variant_key, λ ro. absurd (ground (arith, ro, no_))))))
