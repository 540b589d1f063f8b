-- ===== src/Attempts/ReadOnly.antt =====
-- What a read-only run of runner/attempt_loop.go moves, and when it passes.
use trilha_runner.Prelude.{
  ap, eq_of_text_eq, List, [], ◌∷◌, ℕ, ◌+◌, ◌≤◌, ◌<◌, ◌≡◌, ◌⊎◌, refl, true, false, ◌&&◌, Option,
  none, some, arith, Text, if_ind, not, is_some, ◌∙◌,
}
use trilha_runner.Tasks.{Status}
use trilha_runner.Retry.{Failure}
use trilha_runner.Attempts.State.{World, Config, Run, Stop, Stage, Step, done, again, fail, capture}
use trilha_runner.Attempts.Ending.{on_error, finish_read_only, unchanged, is_clean, is_commit}
use trilha_runner.Attempts.Step.{attempt_step, execute, after_question, after_driver}
use trilha_runner.Attempts.Loop.{Tools, run, preflight}
use trilha_runner.Attempts.Rule.{Holds, all_rounds, is_finished}

clean_changes : (x : Option (List Text)) → is_clean x ≡ true → x ≡ some []
clean_changes none h = absurd (ground (arith, h))
clean_changes (some []) h = refl
clean_changes (some (y ∷ ys)) h = absurd (ground (arith, h))

same_commit : (x : Option Text) (sha : Text) → is_commit x sha ≡ true → x ≡ some sha
same_commit none sha h = absurd (ground (arith, h))
same_commit (some found) sha h = ap (λ t. some t) (eq_of_text_eq found sha h)

module _ (w : World) (c : Config) where
  -- The repository at the end of the attempt `n` as it was at the start of the run: nothing
  -- changed in the worktree, and its HEAD and the ref under review at the commit it started at.
  abbrev pub IsUnchanged : ℕ → Type 0
  IsUnchanged n =
      (w.changes n ≡ some []) × (w.head n ≡ some c.tree_head) × (w.tip n ≡ some c.tree_head)

  unchanged-IsUnchanged : (n : ℕ) → unchanged w c n ≡ true → IsUnchanged n
  unfolding unchanged
  unchanged-IsUnchanged n h = (
    clean_changes (w.changes n) (ground (arith, h)),
    same_commit (w.head n) c.tree_head (ground (arith, h)),
    same_commit (w.tip n) c.tree_head (ground (arith, h)),
  )

  -- How a read-only run ends: verified at the attempt `n`, or with an error and not passed.
  abbrev pub IsVerified : ℕ → Run → Type 0
  IsVerified n s =
      (s.passed ≡ true)
      × (s.result_status ≡ some Status.done)
      × (s.commit ≡ c.tree_head)
      × IsUnchanged n

  abbrev pub Ends : ℕ → Run → Stop → Type 0
  Ends n s x =
      ((is_finished x ≡ true) × IsVerified n s) ⊎ ((is_finished x ≡ false) × (s.passed ≡ false))

module _ (w : World) (c : Config) (n : ℕ) (read_only : c.read_only ≡ true) where
  abbrev Kept : Run → Step → Type 0
  Kept s =
      Holds (λ s'. (n < c.max_attempts) × (s'.status ≡ s.status) × (s'.passed ≡ false))
        (λ s' x. (s'.status ≡ s.status) × Ends w c n s' x)

  fail-Kept : (s : Run) (stage : Stage) → s.passed ≡ false → Kept s (fail w c n s stage)
  unfolding fail
  fail-Kept s stage h = ground arith

  on_error-Kept : (s : Run) (e : Failure) → s.passed ≡ false → Kept s (on_error w c n s e)
  unfolding on_error fail
  on_error-Kept s e h = ground arith

  finish_read_only-Kept : (s : Run) → s.passed ≡ false → Kept s (finish_read_only w c n s)
  unfolding finish_read_only fail
  finish_read_only-Kept s h = ground (arith, unchanged-IsUnchanged w c n)

  execute-kept :
      (s : Run) → ((execute w c n s).0.status ≡ s.status) × ((execute w c n s).0.passed ≡ s.passed)
  unfolding execute
  execute-kept s = ground arith

  after_driver-Kept :
      (s : Run) (e : Option Failure) → s.passed ≡ false → Kept s (after_driver w c n s e)
  after_driver-Kept s (some e) h = on_error-Kept s e h
  after_driver-Kept s none h =
      if_ind (Kept s) c.read_only (λ _. finish_read_only-Kept s h) (λ no_. absurd (ground arith))

  after_question-Kept :
      (s : Run) (q : Option Text) (e : Option Failure)
      → s.passed ≡ false
      → Kept s (after_question w c n s q e)
  after_question-Kept s none e h = after_driver-Kept s e h
  after_question-Kept s (some q) e h =
      if_ind (Kept s) c.read_only (λ _. after_driver-Kept s e h) (λ no_. absurd (ground arith))

  Kept-shift : (s t : Run) (r : Step) → s.status ≡ t.status → Kept s r → Kept t r
  Kept-shift s t (done s' x) e h = (h.0 ∙ e, h.1)
  Kept-shift s t (again s') e h = (h.0, h.1 ∙ e, h.2)

  attempt_step-Kept : (s : Run) → s.passed ≡ false → Kept s (attempt_step w c n s)
  unfolding attempt_step capture
  attempt_step-Kept s h =
      let (s1, answer) = execute w c n (record s { attempt = n }) in
      let (same, not_yet) = execute-kept (record s { attempt = n }) in
      let s2 = capture s1 answer.output in
      Kept-shift s2 s (attempt_step w c n s) same (
        if_ind (Kept s2) (not (w.log_written n)) (λ _. fail-Kept s2 Stage.evidence (not_yet ∙ h))
          (λ _.
            after_question-Kept (record s2 { pending = none }) s2.pending answer.error
              (not_yet ∙ h)))

module _ (w : World) (c : Config) (read_only : c.read_only ≡ true) where
  -- The end of a whole run, from the state `s`.
  pub record Outcome (s s' : Run) (x : Stop) : Type 0 where
    pub at : ℕ
    pub within : at ≤ c.max_attempts
    pub same_status : s'.status ≡ s.status
    pub ends : Ends w c at s' x

  abbrev Before : Run → ℕ → Run → Type 0
  Before s0 n s = (s.status ≡ s0.status) × (s.passed ≡ false)

  step_Outcome :
      (s0 : Run) (n : ℕ) (s : Run)
      → n ≤ c.max_attempts
      → Before s0 n s
      → Holds
          (λ s'. (n < c.max_attempts) × Before s0 (n + 1) s')
          (Outcome s0)
          (attempt_step w c n s)
  step_Outcome s0 n s within (same, not_yet) =
      go (attempt_step w c n s) (attempt_step-Kept w c n read_only s not_yet)
    where
      go :
          (r : Step)
          → Kept w c n read_only s r
          → Holds (λ s'. (n < c.max_attempts) × Before s0 (n + 1) s') (Outcome s0) r
      go (done s' x) h = record { at = n; within = within; same_status = h.0 ∙ same; ends = h.1 }
      go (again s') h = (h.0, (h.1 ∙ same, h.2))

  -- Whatever the agent, the store and git do, a read-only run that is given an attempt or more and
  -- has not passed leaves the task's status alone, and it ends with no error exactly when it
  -- passed, which takes an attempt at whose end the
  -- worktree is clean and its HEAD and the ref under review are the commit it started at.
  pub read_only-Outcome :
      (t : Tools) (s : Run)
      → 1 ≤ c.max_attempts
      → s.passed ≡ false
      → Outcome s (run w c t s).0 (run w c t s).1
  unfolding run
  read_only-Outcome t s some_ not_yet =
      if_ind (λ (r : Run × Stop). Outcome s r.0 r.1)
        (not c.read_only && is_some (preflight t c.checks)) (λ yes_. absurd (ground arith))
        (λ _. all_rounds w c (Before s) (Outcome s) (step_Outcome s) s some_ (refl, not_yet))
