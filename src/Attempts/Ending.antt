-- ===== src/Attempts/Ending.antt =====
-- The ways in which an attempt ends a run: a question, a missing program, an error of the driver,
-- and the check of a read-only run.
use trilha_runner.Prelude.{
  ℕ, ltb, Bool, true, false, ◌&&◌, not, List, [], ◌∷◌, Option, none, some, Text, text_eq, is_empty,
  if◌then◌else◌,
}
use trilha_runner.Tasks.{Status}
use trilha_runner.Retry.{
  Failure, FailureClass, no_class, environment, policy, no_code, missing_tool, read_only_violated,
  classify_retry, error_code_for,
}
use trilha_runner.Attempts.State.{
  World, Config, Run, Step, done, again, move, fail, add_attempt, entry, recover_last, add_evidence,
  run_record, passed, failed, finished, driver_error, missing_program, repository_changed, evidence,
  execution, status, commit,
}

abbrev pub mark_failed : Run → Option Run → Run
mark_failed s none = s
mark_failed s (some s') = record s' { result_status = some Status.failed }

abbrev pub failure_class_of : Failure → FailureClass × Bool
failure_class_of e = if e.is_policy then (policy, false) else classify_retry (some e)

-- What finishReadOnly finds wrong: the worktree, its HEAD, the ref under review.
abbrev pub is_commit : Option Text → Text → Bool
is_commit none sha = false
is_commit (some found) sha = text_eq found sha

abbrev pub is_clean : Option (List Text) → Bool
is_clean none = false
is_clean (some []) = true
is_clean (some (x ∷ xs)) = false

module _ (w : World) (c : Config) (n : ℕ) where
  abbrev blocked_end : Run → Text → Option Run → Step
  blocked_end s q none = fail w c n s status
  blocked_end s q (some s') =
      done (record s' { result_status = some Status.blocked; passed = false; question = some q })
        finished

  abbrev asked : Run → Text → Step
  asked s q =
      let s1 = add_attempt s (entry n passed no_class no_code) in
      if not (w.recorded n)
      then fail w c n s1 evidence
      else let s2 = add_evidence s1 (run_record false ∷ []) in
        blocked_end s2 q (move w n s2 Status.blocked)

  -- needsInput: the agent stopped to ask.
  unfoldable pub needs_input : Run → Text → Step
  needs_input s q = elim (w.committed n) [
    | none ↦ fail w c n s commit
    | some sha ↦ asked (if is_empty sha then s else record s { commit = sha }) q
  ]

  -- failEnvironment: a program that the run needs is not there.
  unfoldable pub fail_environment : Run → Step
  fail_environment s =
      let s1 = add_attempt (record s { attempt = n }) (entry n failed environment missing_tool) in
      if not (w.recorded n)
      then fail w c n s1 evidence
      else let s2 = record (add_evidence s1 (run_record false ∷ [])) {
        failure_class = environment;
        error_code = missing_tool;
      } in
        done (mark_failed s2 (move w n s2 Status.failed)) missing_program

  -- The end of an attempt whose driver failed for good.
  abbrev give_up : Run → Failure → FailureClass → Step
  give_up s e class =
      let s1 = record s { failure_class = class; error_code = error_code_for class } in
      if c.read_only
      then done (record s1 { result_status = some Status.failed }) (driver_error e)
      else done (mark_failed s1 (move w n s1 Status.failed)) (driver_error e)

  abbrev pub retry_or : Run → Failure → FailureClass × Bool → Step
  retry_or s e (class, retryable) =
      let s1 = record s { attempts = recover_last s.attempts } in
      if not (retryable && ltb n c.max_attempts)
      then give_up s e class
      else if w.waited n
      then again s1
      else fail w c n s1 execution

  -- The branch of the loop where the driver returned an error.
  unfoldable pub on_error : Run → Failure → Step
  on_error s e =
      let verdict = failure_class_of e in
      let s1 = add_attempt s (entry n failed verdict.0 (error_code_for verdict.0)) in
      if not (w.recorded n)
      then fail w c n s1 evidence
      else retry_or (add_evidence s1 (run_record false ∷ [])) e verdict

  unfoldable pub unchanged : Bool
  unfolding text_eq
  unchanged =
      is_clean (w.changes n) && is_commit (w.head n) c.tree_head && is_commit (w.tip n) c.tree_head

  abbrev changed_end : Run → Step
  changed_end s =
      let s1 = add_attempt s (entry n failed policy read_only_violated) in
      let s2 = if w.recorded n then add_evidence s1 (run_record false ∷ []) else s1 in
      done
        (record s2 {
          result_status = some Status.failed;
          passed = false;
          failure_class = policy;
          error_code = read_only_violated;
        })
        repository_changed

  abbrev unchanged_end : Run → Step
  unchanged_end s =
      let s1 = add_attempt s (entry n passed no_class no_code) in
      let s2 = add_evidence s1 (run_record true ∷ []) in
      if not (w.recorded n)
      then fail w c n s1 evidence
      else done (record s2 { result_status = some Status.done; passed = true }) finished

  unfoldable pub finish_read_only : Run → Step
  finish_read_only s =
      let s0 = record s { commit = c.tree_head } in
      if not unchanged then changed_end s0 else unchanged_end s0
