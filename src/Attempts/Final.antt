-- ===== src/Attempts/Final.antt =====
-- Where a run of runner/attempt_loop.go that may change things leaves its task.
use trilha_runner.Prelude.{
  ℕ, ◌≤◌, ◌<◌, ◌≡◌, ◌⊎◌, inl, inr, Bool, true, false, ◌&&◌, Option, none, some, arith, Text, if_ind,
  not, is_some,
}
use trilha_runner.Tasks.{Status}
use trilha_runner.Retry.{Failure}
use trilha_runner.Attempts.State.{
  World, Config, Run, Stop, Stage, Step, done, again, fail, move, capture,
}
use trilha_runner.Attempts.Ending.{on_error, needs_input, fail_environment}
use trilha_runner.Attempts.Step.{
  attempt_step, execute, after_question, after_driver, run_verify, after_verify,
}
use trilha_runner.Attempts.Loop.{Tools, run, preflight, ended}
use trilha_runner.Attempts.Rule.{Holds, all_rounds, is_finished}

-- The transitions of the protocol that the loop makes, and a store that takes every move.
pub record TakesMoves (w : World) : Type 0 where
  pub starts_verify : w.allowed Status.running Status.verify ≡ true
  pub to_review : w.allowed Status.verify Status.review ≡ true
  pub checks_fail : w.allowed Status.verify Status.failed ≡ true
  pub to_ready : w.allowed Status.failed Status.ready ≡ true
  pub to_running : w.allowed Status.ready Status.running ≡ true
  pub to_blocked : w.allowed Status.running Status.blocked ≡ true
  pub to_failed : w.allowed Status.running Status.failed ≡ true
  pub stored : (n : ℕ) (to : Status) → w.store_ok n to ≡ true

-- The three ends, with the status in the store and in the result: passed and in review, stopped
-- on a question and blocked, or failed with an error.
abbrev pub InReview : Run → Stop → Type 0
InReview s x =
    (is_finished x ≡ true)
    × (s.status ≡ Status.review)
    × (s.result_status ≡ some Status.review)
    × (s.passed ≡ true)
    × (s.question ≡ none)

abbrev pub IsAsking : Run → Stop → Type 0
IsAsking s x =
    (is_finished x ≡ true)
    × (s.status ≡ Status.blocked)
    × (s.result_status ≡ some Status.blocked)
    × (s.passed ≡ false)
    × (is_some s.question ≡ true)

abbrev pub HasFailed : Run → Stop → Type 0
HasFailed s x =
    (is_finished x ≡ false)
    × (s.status ≡ Status.failed)
    × (s.result_status ≡ some Status.failed)
    × (s.passed ≡ false)
    × (s.question ≡ none)

abbrev pub Final : Run → Stop → Type 0
Final s x = InReview s x ⊎ IsAsking s x ⊎ HasFailed s x

module _ (w : World) (c : Config) (n : ℕ) (writes : c.read_only ≡ false)
    (takes : TakesMoves w) where
  -- A run whose task is in the given status, with nothing passed and no question in the result.
  abbrev pub At : Status → Run → Type 0
  At status s = (s.status ≡ status) × (s.passed ≡ false) × (s.question ≡ none)

  abbrev pub Goes : Step → Type 0
  Goes = Holds (λ s'. (n < c.max_attempts) × At Status.running s') Final

  moved :
      (s : Run) (to : Status)
      → w.allowed s.status to ≡ true
      → move w n s to ≡ some (record s { status = to })
  unfolding move
  moved s to h = ground (arith, takes.stored n to)

  fail-Goes :
      (s : Run) (stage : Stage)
      → w.allowed s.status Status.failed ≡ true
      → s.passed ≡ false
      → s.question ≡ none
      → Goes (fail w c n s stage)
  unfolding fail
  fail-Goes s stage h p q = ground (arith, moved s Status.failed)

  on_error-Goes : (s : Run) (e : Failure) → At Status.running s → Goes (on_error w c n s e)
  unfolding on_error fail move
  on_error-Goes s e h = ground (arith, takes.to_failed, takes.stored n Status.failed)

  needs_input-Goes : (s : Run) (q : Text) → At Status.running s → Goes (needs_input w c n s q)
  unfolding needs_input fail move
  needs_input-Goes s q h = ground (
    arith,
    takes.to_failed,
    takes.to_blocked,
    takes.stored n Status.failed,
    takes.stored n Status.blocked,
  )

  -- run_verify ends with the task in verify, or with an error while it runs or in verify.
  abbrev Verified : Run × Option Bool → Type 0
  Verified (s, none) = At Status.running s ⊎ At Status.verify s
  Verified (s, some b) = At Status.verify s

  run_verify-Verified : (s : Run) → At Status.running s → Verified (run_verify w c n s)
  unfolding run_verify move
  run_verify-Verified s h = ground (arith, takes.starts_verify, takes.stored n Status.verify)

  execute-At : (s : Run) → At Status.running s → At Status.running (execute w c n s).0
  unfolding execute
  execute-At s h = ground arith

  after_verify-Goes :
      n ≤ c.max_attempts → (r : Run × Option Bool) → Verified r → Goes (after_verify w c n r)
  unfolding fail move
  after_verify-Goes within (s, none) (inl h) =
      fail-Goes s Stage.verify (rw h.0 takes.to_failed) h.1 h.2
  after_verify-Goes within (s, none) (inr h) =
      fail-Goes s Stage.verify (rw h.0 takes.checks_fail) h.1 h.2
  after_verify-Goes within (s, some true) h =
      ground (arith, takes.to_review, takes.stored n Status.review)
  after_verify-Goes within (s, some false) h = ground (
    arith,
    takes.checks_fail,
    takes.to_ready,
    takes.to_running,
    takes.to_failed,
    takes.stored n Status.failed,
    takes.stored n Status.ready,
    takes.stored n Status.running,
  )

  after_driver-Goes :
      n ≤ c.max_attempts
      → (s : Run) (e : Option Failure) → At Status.running s
      → Goes (after_driver w c n s e)
  after_driver-Goes within s (some e) h = on_error-Goes s e h
  after_driver-Goes within s none h =
      if_ind Goes c.read_only (λ yes_. absurd (ground arith))
        (λ _. after_verify-Goes within (run_verify w c n s) (run_verify-Verified s h))

  after_question-Goes :
      n ≤ c.max_attempts
      → (s : Run) (q : Option Text) (e : Option Failure) → At Status.running s
      → Goes (after_question w c n s q e)
  after_question-Goes within s none e h = after_driver-Goes within s e h
  after_question-Goes within s (some q) e h =
      if_ind Goes c.read_only (λ yes_. absurd (ground arith)) (λ _. needs_input-Goes s q h)

  attempt_step-Goes :
      n ≤ c.max_attempts → (s : Run) → At Status.running s → Goes (attempt_step w c n s)
  unfolding attempt_step capture
  attempt_step-Goes within s h =
      let (s1, answer) = execute w c n (record s { attempt = n }) in
      let k : At Status.running s1 = execute-At (record s { attempt = n }) h in
      let s2 = capture s1 answer.output in
      if_ind Goes (not (w.log_written n))
        (λ _. fail-Goes s2 Stage.evidence (rw k.0 takes.to_failed) k.1 k.2)
        (λ _. after_question-Goes within (record s2 { pending = none }) s2.pending answer.error k)

  fail_environment-Final :
      (s : Run) → At Status.running s → Holds (λ _. ⊥) Final (fail_environment w c n s)
  unfolding fail_environment fail move
  fail_environment-Final s h = ground (arith, takes.to_failed, takes.stored n Status.failed)

module _ (w : World) (c : Config) (writes : c.read_only ≡ false) (takes : TakesMoves w) where
  -- When the store takes the protocol's moves, a run that may write, is given an attempt or more
  -- and starts with its task running, nothing passed and no question always ends, whatever the
  -- agent, git and the checks do, in one of three ways: with no error, passed and the task in
  -- review; with no error, the question of the agent and the task blocked; or with an error and
  -- the task failed.
  pub run-Final :
      (t : Tools) (s : Run)
      → 1 ≤ c.max_attempts
      → s.status ≡ Status.running
      → s.passed ≡ false
      → s.question ≡ none
      → Final (run w c t s).0 (run w c t s).1
  unfolding run
  run-Final t s some_ r p q =
      if_ind (λ (o : Run × Stop). Final o.0 o.1) (not c.read_only && is_some (preflight t c.checks))
        (λ _.
          ended-Final (fail_environment w c 1 s)
            (fail_environment-Final w c 1 writes takes s (r, p, q)))
        (λ _.
          all_rounds w c (λ n. At w c n writes takes Status.running) Final
            (λ n s' within h. attempt_step-Goes w c n writes takes within s' h) s some_ (r, p, q))
    where
      ended-Final : (x : Step) → Holds (λ _. ⊥) Final x → Final (ended w c x).0 (ended w c x).1
      ended-Final (done s' x) h = h
      ended-Final (again s') h = absurd h
