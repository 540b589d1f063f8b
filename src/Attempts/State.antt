-- ===== src/Attempts/State.antt =====
-- What the loop of runner/attempt_loop.go keeps, and what it asks of the world. Texts that only go
-- to logs, progress events and evidence notes are left out.
use trilha_runner.Prelude.{
  ℕ, ◌+◌, Bool, ◌&&◌, List, [], ◌∷◌, ◌++◌, Option, none, some, Text, if◌then◌else◌,
}
use trilha_runner.Tasks.{Status}
use trilha_runner.Retry.{Failure, FailureClass, ErrorCode, field_int, wrap64}

pub data AttemptStatus : Type 0 where
  passed failed recovered : AttemptStatus

-- One entry of Result.Attempts.
pub record Attempt : Type 0 where
  pub number : ℕ
  pub status : AttemptStatus
  pub failure_class : FailureClass
  pub error_code : ErrorCode

pub data EvidenceKind : Type 0 where
  check eval run note : EvidenceKind

pub record Evidence : Type 0 where
  pub kind : EvidenceKind
  pub passed : Bool
  pub exit_code : ℕ
  pub note : Text
  pub command : Text

-- task.Verification
pub record Verification : Type 0 where
  pub passed : Bool
  pub evidence : List Evidence

-- driver.Output: its text and the numbers of its Meta.
pub record Output : Type 0 where
  pub text : Text
  pub input_tokens : Text
  pub output_tokens : Text
  pub tokens : Text

-- What a call of the driver gives: its output, its error, and the question that the agent asked
-- while it ran.
pub record Answer : Type 0 where
  pub output : Output
  pub error : Option Failure
  pub asks : Option Text

-- What lies outside the loop, by the number of the attempt.
pub record World : Type 0 where
  pub execute : ℕ → Bool → Answer  -- the driver; the flag says that a session is resumed
  pub log_written : ℕ → Bool  -- the write of agent.log
  pub allowed : Status → Status → Bool  -- the protocol's transitions
  pub store_ok : ℕ → Status → Bool  -- the store takes the move
  pub recorded : ℕ → Bool  -- task.Record takes the run record
  pub committed : ℕ → Option Text  -- Manager.Commit: an error, or the hash, "" for no change
  pub verified : ℕ → Option Verification  -- the run of the checks
  pub waited : ℕ → Bool  -- the wait before a retry was not cut off
  pub changes : ℕ → Option (List Text)  -- Manager.Changes of the worktree
  pub head : ℕ → Option Text  -- Manager.Head of the worktree
  pub tip : ℕ → Option Text  -- Manager.SHA of the ref under review

-- The fields of attemptLoop that do not change.
pub record Config : Type 0 where
  pub read_only : Bool
  pub max_attempts : ℕ
  pub resume : Bool  -- a session to resume
  pub tree_head : Text  -- the commit that a detached worktree started at
  pub checks : List Text

-- The task's status in the store, the fields of Result that the loop writes, the question that the
-- agent session holds, and the calls of the driver so far, oldest first.
pub record Run : Type 0 where
  pub status : Status
  pub attempt : ℕ
  pub attempts : List Attempt
  pub passed : Bool
  pub result_status : Option Status
  pub failure_class : FailureClass
  pub error_code : ErrorCode
  pub question : Option Text
  pub pending : Option Text
  pub commit : Text
  pub evidence : List Evidence
  pub input_tokens : ℕ
  pub output_tokens : ℕ
  pub total_tokens : ℕ
  pub calls : List (ℕ × Bool)

pub data Stage : Type 0 where
  evidence execution verify status commit : Stage

-- The error that the loop returns, `finished` for nil.
pub data Stop : Type 0 where
  finished : Stop
  failing : Stage → Stop
  driver_error : Failure → Stop
  missing_program : Stop
  checks_fail : Stop
  repository_changed : Stop
  exhausted : Stop

pub data Step : Type 0 where
  done : Run → Stop → Step
  again : Run → Step

-- taskcompat.Move of the task.
unfoldable pub move : World → ℕ → Run → Status → Option Run
move w n s to =
    if w.allowed s.status to && w.store_ok n to then some (record s { status = to }) else none

-- The closure `fail` of Runner.Run, at the stages that the loop gives it.
unfoldable pub fail : World → Config → ℕ → Run → Stage → Step
fail w c n s stage =
    if c.read_only
    then done (record s { result_status = some Status.failed }) (failing stage)
    else elim (move w n s Status.failed) [
      | none ↦ done s (failing stage)
      | some s' ↦ done (record s' { result_status = some Status.failed }) (failing stage)
    ]

abbrev pub entry : ℕ → AttemptStatus → FailureClass → ErrorCode → Attempt
entry n state class code = record {
  number = n;
  status = state;
  failure_class = class;
  error_code = code;
}

abbrev pub add_attempt : Run → Attempt → Run
add_attempt s a = record s { attempts = s.attempts ++ (a ∷ []) }

-- l.result.Attempts[len(l.result.Attempts)-1].Status = "recovered"
unfoldable pub recover_last : List Attempt → List Attempt
recover_last [] = []
recover_last (a ∷ []) = record a { status = recovered } ∷ []
recover_last (a ∷ b ∷ rest) = a ∷ recover_last (b ∷ rest)

-- captureOutput, but for the write of the log: counters are int64 bit patterns.
unfoldable pub capture : Run → Output → Run
capture s output = record s {
  input_tokens = wrap64 (s.input_tokens + field_int output.input_tokens 0);
  output_tokens = wrap64 (s.output_tokens + field_int output.output_tokens 0);
  total_tokens = wrap64 (s.total_tokens + field_int output.tokens 0);
}

abbrev pub add_evidence : Run → List Evidence → Run
add_evidence s more = record s { evidence = s.evidence ++ more }

abbrev pub run_record : Bool → Evidence
run_record good = record { kind = run; passed = good; exit_code = 0; note = []; command = [] }
