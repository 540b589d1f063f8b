-- ===== src/Attempts/Step.antt =====
-- One round of the loop of runner/attempt_loop.go, with verification.go.
use trilha_runner.Prelude.{
  ℕ, ◌==◌, Bool, true, false, ◌&&◌, ◌||◌, not, List, [], ◌∷◌, ◌++◌, Option, none, some, Text,
  is_empty, is_some, to_lower, if◌then◌else◌,
}
use trilha_runner.Tasks.{Status}
use trilha_runner.Retry.{
  Failure, FailureClass, no_class, environment, checks_failed, no_code,
  missing_tool as missing_tool_code, is_environment_failure,
}
use trilha_runner.Attempts.State.{
  Attempt, Evidence, EvidenceKind, Verification, Answer, World, Config, Run, Step, done, again,
  move, fail, add_attempt, entry, recover_last, capture, add_evidence, run_record, passed, failed,
  finished, checks_fail, evidence, verify, status,
}
use trilha_runner.Attempts.Ending.{needs_input, on_error, finish_read_only}

abbrev is_check : EvidenceKind → Bool
is_check EvidenceKind.check = true
is_check _ = false

-- missingTool: the command of the first check that could not run.
unfoldable pub missing_tool : List Evidence → Text
unfolding is_environment_failure to_lower
missing_tool [] = []
missing_tool (e ∷ es) =
    let rest = missing_tool es in
    if not (is_check e.kind) || e.passed
    then rest
    else if e.exit_code == 127 || is_environment_failure (to_lower e.note)
    then e.command
    else rest

abbrev pub last_class : List Attempt → FailureClass
last_class [] = no_class
last_class (a ∷ []) = a.failure_class
last_class (a ∷ b ∷ rest) = last_class (b ∷ rest)

abbrev pub is_environment : FailureClass → Bool
is_environment environment = true
is_environment _ = false

module _ (w : World) (c : Config) (n : ℕ) where
  -- One call of the driver.
  abbrev pub call : Bool → Run → Run
  call resumed s = record s {
    calls = s.calls ++ ((n, resumed) ∷ []);
    pending = elim (w.execute n resumed).asks [ none ↦ s.pending | some q ↦ some q ];
  }

  -- execute: the first attempt of a continuation resumes the session; if that fails with no
  -- question asked, the same attempt starts a fresh one.
  unfoldable pub execute : Run → Run × Answer
  execute s =
      let resumed = call true s in
      let answer = w.execute n true in
      if not (n == 1 && c.resume)
      then (call false s, w.execute n false)
      else if not (is_some answer.error) || is_some resumed.pending
      then (resumed, answer)
      else (call false resumed, w.execute n false)

  -- The attempt that the checks make of the round.
  abbrev pub verified_attempt : Verification → Attempt
  verified_attempt v =
      if v.passed
      then entry n passed no_class no_code
      else if is_empty (missing_tool v.evidence)
      then entry n failed checks_failed no_code
      else entry n failed environment missing_tool_code

  abbrev pub checked : Run → Option Verification → Run × Option Bool
  checked s none = (s, none)
  checked s (some v) =
      let s1 = add_attempt (add_evidence s v.evidence) (verified_attempt v) in
      if w.recorded n
      then (add_evidence s1 (run_record v.passed ∷ []), some v.passed)
      else (s1, none)

  abbrev pub after_move : Run → Option Run → Run × Option Bool
  after_move s none = (s, none)
  after_move s (some s') = checked s' (w.verified n)

  abbrev pub after_commit : Run → Option Text → Run × Option Bool
  after_commit s none = (s, none)
  after_commit s (some sha) =
      let s1 = if is_empty sha then s else record s { commit = sha } in
      after_move s1 (move w n s1 Status.verify)

  -- verify: whether the checks passed, or `none` for its error.
  unfoldable pub run_verify : Run → Run × Option Bool
  run_verify s = after_commit s (w.committed n)

  abbrev pub run_again : Run → Option Run → Step
  run_again s none = fail w c n s status
  run_again s (some s') = if w.waited n then again s' else fail w c n s' verify

  abbrev pub ready_again : Run → Option Run → Step
  ready_again s none = fail w c n s status
  ready_again s (some s') = run_again s' (move w n s' Status.running)

  -- The checks failed and the task is moved to failed: end, or make a corrective attempt.
  abbrev pub after_failed : Run → Option Run → Step
  after_failed s none = fail w c n s status
  after_failed s (some s') =
      let over = record s' { result_status = some Status.failed } in
      let s1 = record s' { attempts = recover_last s'.attempts } in
      if is_environment (last_class s'.attempts)
      then done (record over { failure_class = environment; error_code = missing_tool_code })
          checks_fail
      else if n == c.max_attempts
      then done (record over { failure_class = checks_failed }) checks_fail
      else ready_again s1 (move w n s1 Status.ready)

  abbrev pub after_passed : Run → Option Run → Step
  after_passed s none = fail w c n s status
  after_passed s (some s') =
      done (record s' { passed = true; result_status = some Status.review }) finished

  abbrev pub after_verify : Run × Option Bool → Step
  after_verify (s, none) = fail w c n s verify
  after_verify (s, some true) = after_passed s (move w n s Status.review)
  after_verify (s, some false) = after_failed s (move w n s Status.failed)

  abbrev pub after_driver : Run → Option Failure → Step
  after_driver s (some e) = on_error w c n s e
  after_driver s none =
      if c.read_only then finish_read_only w c n s else after_verify (run_verify s)

  -- takeQuestion: a read-only run does not stop for questions.
  abbrev pub after_question : Run → Option Text → Option Failure → Step
  after_question s none e = after_driver s e
  after_question s (some q) e = if c.read_only then after_driver s e else needs_input w c n s q

  unfoldable pub attempt_step : Run → Step
  attempt_step s =
      let (s1, answer) = execute (record s { attempt = n }) in
      let s2 = capture s1 answer.output in
      if not (w.log_written n)
      then fail w c n s2 evidence
      else after_question (record s2 { pending = none }) s2.pending answer.error
