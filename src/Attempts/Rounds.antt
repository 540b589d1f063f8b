-- ===== src/Attempts/Rounds.antt =====
-- What a round of the loop adds to the attempts.
use trilha_runner.Prelude.{
  subst, is_empty, ℕ, ◌≤◌, ◌<◌, ◌≡◌, ◌⊎◌, inl, inr, refl, ap, Bool, true, false, ◌&&◌, List, [],
  ◌∷◌, ◌++◌, Option, none, some, arith, Text, if_ind, not, ◌∙◌,
}
use trilha_runner.Tasks.{Status}
use trilha_runner.Retry.{
  no_class, no_code, read_only_violated, Failure, provider_transient, checks_failed, policy,
  error_code_for,
}
use trilha_runner.Retry.Classes.{classify_retry_class}
use trilha_runner.Attempts.State.{
  passed, failed, entry, Attempt, recovered, Verification, World, Config, Run, Stage, Step, fail,
  move, capture, recover_last,
}
use trilha_runner.Attempts.Ending.{on_error, needs_input, finish_read_only, failure_class_of}
use trilha_runner.Attempts.Step.{
  attempt_step, execute, after_passed, after_question, after_driver, verified_attempt, checked,
  after_commit, after_move, after_failed, run_verify, after_verify, last_class, is_environment,
}
use trilha_runner.Attempts.Rule.{Holds}

-- An attempt that was tried again: marked recovered, after a passing failure of the provider or
-- checks that failed.
abbrev pub IsRetried : ℕ → Attempt → Type 0
IsRetried n a =
    (a.number ≡ n)
    × (a.status ≡ recovered)
    × ((a.failure_class ≡ provider_transient) ⊎ (a.failure_class ≡ checks_failed))

recover_last-append :
    (xs : List Attempt) (a : Attempt)
    → recover_last (xs ++ (a ∷ [])) ≡ xs ++ (record a { status = recovered } ∷ [])
unfolding recover_last
recover_last-append [] a = refl
recover_last-append (x ∷ []) a = refl
recover_last-append (x ∷ y ∷ xs) a = ap (λ l. x ∷ l) (recover_last-append (y ∷ xs) a)

last_class-append :
    (xs : List Attempt) (a : Attempt) → last_class (xs ++ (a ∷ [])) ≡ a.failure_class
last_class-append [] a = refl
last_class-append (x ∷ []) a = refl
last_class-append (x ∷ y ∷ xs) a = last_class-append (y ∷ xs) a

module _ (w : World) (c : Config) (n : ℕ) where
  -- A step that ends the run, or that goes on, with the given attempts.
  abbrev pub EndsAt : List Attempt → Step → Type 0
  EndsAt xs = Holds (λ s'. ⊥) (λ s' x. s'.attempts ≡ xs)

  abbrev pub GoesAt : List Attempt → Step → Type 0
  GoesAt xs = Holds (λ s'. (n < c.max_attempts) × (s'.attempts ≡ xs)) (λ s' x. ⊥)

  abbrev pub plus : List Attempt → Attempt → List Attempt
  plus xs a = xs ++ (a ∷ [])

  fail-EndsAt : (s : Run) (stage : Stage) → EndsAt s.attempts (fail w c n s stage)
  unfolding fail move
  fail-EndsAt s stage = ground arith

  needs_input-EndsAt :
      (s : Run) (q : Text)
      → EndsAt s.attempts (needs_input w c n s q)
        ⊎ EndsAt (plus s.attempts (entry n passed no_class no_code)) (needs_input w c n s q)
  unfolding needs_input fail move
  needs_input-EndsAt s q = ground arith

  finish_read_only-EndsAt :
      (s : Run)
      → EndsAt
          (plus s.attempts (entry n failed policy read_only_violated))
          (finish_read_only w c n s)
        ⊎ EndsAt (plus s.attempts (entry n passed no_class no_code)) (finish_read_only w c n s)
  unfolding finish_read_only fail move
  finish_read_only-EndsAt s = ground arith

  on_error-EndsAt :
      (s : Run) (e : Failure)
      → let class = (failure_class_of e).0 in
        let code = error_code_for class in
        let lost = plus s.attempts (entry n failed class code) in
        let tried = plus s.attempts (entry n recovered class code) in
        EndsAt lost (on_error w c n s e)
        ⊎ EndsAt tried (on_error w c n s e)
        ⊎ (((failure_class_of e).1 ≡ true) × GoesAt tried (on_error w c n s e))
  unfolding on_error fail move
  on_error-EndsAt s e =
      let class = (failure_class_of e).0 in
      let last = recover_last-append s.attempts (entry n failed class (error_code_for class)) in
      ground (arith, last)

  -- The attempts of a round over those before it: none or one more, of its number, and one that
  -- was retried if the run goes on.
  abbrev pub Adds : List Attempt → Step → Type 0
  Adds old r =
      EndsAt old r
      ⊎ ((a : Attempt) × (a.number ≡ n)
          × (EndsAt (plus old a) r ⊎ (IsRetried n a × GoesAt (plus old a) r)))

  -- What verify leaves: nothing, or the attempt that a run of the checks makes.
  abbrev Checked : List Attempt → Run × Option Bool → Type 0
  Checked old (s, b) =
      ((b ≡ none) × (s.attempts ≡ old))
      ⊎ ((v : Verification) × (s.attempts ≡ plus old (verified_attempt w c n v))
          × ((b ≡ none) ⊎ (b ≡ some v.passed)))

  checked-Checked : (s : Run) (v : Option Verification) → Checked s.attempts (checked w c n s v)
  checked-Checked s none = inl (refl, refl)
  checked-Checked s (some v) =
      let a = verified_attempt w c n v in
      if_ind (Checked s.attempts) (w.recorded n) (λ _. inr (v, refl, inr refl))
        (λ _. inr (v, refl, inl refl))

  run_verify-Checked : (s : Run) → Checked s.attempts (run_verify w c n s)
  unfolding run_verify move
  run_verify-Checked s = committed s (w.committed n)
    where
      committed : (s : Run) (x : Option Text) → Checked s.attempts (after_commit w c n s x)
      committed s none = inl (refl, refl)
      committed s (some sha) =
          if_ind (λ (t : Run). Checked s.attempts (after_move w c n t (move w n t Status.verify)))
            (is_empty sha) (λ _. moved s) (λ _. moved (record s { commit = sha }))
        where
          moved : (t : Run) → Checked t.attempts (after_move w c n t (move w n t Status.verify))
          moved t =
              if_ind (λ (x : Option Run). Checked t.attempts (after_move w c n t x))
                (w.allowed t.status Status.verify && w.store_ok n Status.verify)
                (λ _. checked-Checked (record t { status = Status.verify }) (w.verified n))
                (λ _. inl (refl, refl))

  after_failed-EndsAt :
      (old : List Attempt) (a : Attempt) (s : Run)
      → s.attempts ≡ plus old a
      → n ≤ c.max_attempts
      → let r = after_failed w c n s (move w n s Status.failed) in
        let tried = record a { status = recovered } in
        EndsAt (plus old a) r
        ⊎ EndsAt (plus old tried) r
        ⊎ ((is_environment a.failure_class ≡ false) × GoesAt (plus old tried) r)
  unfolding move fail
  after_failed-EndsAt old a s e within =
      let last = ap recover_last e ∙ recover_last-append old a in
      let class = ap last_class e ∙ last_class-append old a in ground (arith, e, last, class)

  after_passed-EndsAt :
      (s : Run) → EndsAt s.attempts (after_passed w c n s (move w n s Status.review))
  unfolding move fail
  after_passed-EndsAt s = ground arith

  -- The class of a round whose checks failed, when it is not the environment's.
  failed_checks :
      (v : Verification)
      → v.passed ≡ false
      → is_environment (verified_attempt w c n v).failure_class ≡ false
      → (verified_attempt w c n v).failure_class ≡ checks_failed
  failed_checks v f e = ground (arith, f, e)

  verified_number : (v : Verification) → (verified_attempt w c n v).number ≡ n
  verified_number v = ground arith

  ends_one :
      (old : List Attempt) (a : Attempt) (r : Step)
      → a.number ≡ n
      → EndsAt (plus old a) r
      → Adds old r
  ends_one old a r e h = inr (a, e, inl h)

  after_verify-Adds :
      (old : List Attempt) (r : Run × Option Bool)
      → n ≤ c.max_attempts
      → Checked old r
      → Adds old (after_verify w c n r)
  after_verify-Adds old (s, none) within (inl h) =
      inl (subst (λ l. EndsAt l (fail w c n s Stage.verify)) h.1 (fail-EndsAt s Stage.verify))
  after_verify-Adds old (s, some b) within (inl h) = absurd (ground (arith, h.0))
  after_verify-Adds old (s, none) within (inr (v, e, h)) =
      ends_one old (verified_attempt w c n v) (fail w c n s Stage.verify) (verified_number v)
        (subst (λ l. EndsAt l (fail w c n s Stage.verify)) e (fail-EndsAt s Stage.verify))
  after_verify-Adds old (s, some true) within (inr (v, e, h)) =
      ends_one old (verified_attempt w c n v) (after_passed w c n s (move w n s Status.review))
        (verified_number v)
        (subst (λ l. EndsAt l (after_passed w c n s (move w n s Status.review))) e
          (after_passed-EndsAt s))
  after_verify-Adds old (s, some false) within (inr (v, e, h)) =
      let a = verified_attempt w c n v in
      let tried = record a { status = recovered } in
      elim (after_failed-EndsAt old a s e within) [
        | inl x ↦ inr (a, verified_number v, inl x)
        | inr (inl x) ↦ inr (tried, verified_number v, inl x)
        | inr (inr (x, y)) ↦ inr (
          tried,
          verified_number v,
          inr ((verified_number v, refl, inr (failed_checks v (ground (arith, h)) x)), y),
        )
      ]

  on_error-Adds : (s : Run) (e : Failure) → Adds s.attempts (on_error w c n s e)
  on_error-Adds s e =
      let (class, retryable) = failure_class_of e in
      let lost = entry n failed class (error_code_for class) in
      let tried = entry n recovered class (error_code_for class) in
      elim (on_error-EndsAt s e) [
        | inl x ↦ inr (lost, refl, inl x)
        | inr (inl x) ↦ inr (tried, refl, inl x)
        | inr (inr (x, y)) ↦ inr (tried, refl, inr ((refl, refl, inl (transient e x)), y))
      ]
    where
      transient :
          (e : Failure)
          → (failure_class_of e).1 ≡ true
          → (failure_class_of e).0 ≡ provider_transient
      transient e h = ground (arith, h, classify_retry_class (some e))

  after_driver-Adds :
      n ≤ c.max_attempts → (s : Run) (e : Option Failure) → Adds s.attempts (after_driver w c n s e)
  after_driver-Adds within s (some e) = on_error-Adds s e
  after_driver-Adds within s none =
      if_ind (Adds s.attempts) c.read_only
        (λ _. elim (finish_read_only-EndsAt s) [
          | inl x ↦ inr (entry n failed policy read_only_violated, refl, inl x)
          | inr x ↦ inr (entry n passed no_class no_code, refl, inl x)
        ])
        (λ _. after_verify-Adds s.attempts (run_verify w c n s) within (run_verify-Checked s))

  after_question-Adds :
      n ≤ c.max_attempts
      → (s : Run) (q : Option Text) (e : Option Failure)
      → Adds s.attempts (after_question w c n s q e)
  after_question-Adds within s none e = after_driver-Adds within s e
  after_question-Adds within s (some q) e =
      if_ind (Adds s.attempts) c.read_only (λ _. after_driver-Adds within s e)
        (λ _. elim (needs_input-EndsAt s q) [
          | inl x ↦ inl x
          | inr x ↦ inr (entry n passed no_class no_code, refl, inl x)
        ])

  execute-attempts : (s : Run) → (execute w c n s).0.attempts ≡ s.attempts
  unfolding execute
  execute-attempts s = ground arith

  pub attempt_step-Adds : n ≤ c.max_attempts → (s : Run) → Adds s.attempts (attempt_step w c n s)
  unfolding attempt_step capture
  attempt_step-Adds within s =
      let (s1, answer) = execute w c n (record s { attempt = n }) in
      let s2 = capture s1 answer.output in
      subst (λ l. Adds l (attempt_step w c n s)) (execute-attempts (record s { attempt = n }))
        (if_ind (Adds s2.attempts) (not (w.log_written n))
          (λ _. inl (fail-EndsAt s2 Stage.evidence))
          (λ _. after_question-Adds within (record s2 { pending = none }) s2.pending answer.error))
