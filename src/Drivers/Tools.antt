-- ===== src/Drivers/Tools.antt =====
-- The tools of driver/ai.go: which of them a job offers, what each does, and what it signals.
use trilha_runner.Prelude.{
  ℕ, ◌+◌, ltb, leb, ◌==◌, Bool, true, false, ◌&&◌, ◌||◌, not, List, [], ◌∷◌, ◌++◌, ◌⊎◌, inl, inr,
  Option, none, some, Text, codes, text_eq, is_empty, trim_space, to_lower, length, if◌then◌else◌,
}
use trilha_runner.Agents.Findings.{Finding, ext, trim_dot, contains_text}
use trilha_runner.Deployer.Health.{joined}
use trilha_runner.Drivers.{Kind, Job, review, hunt}

-- What a job's listener is told.
pub data Message : Type 0 where
  tool_start tool_end : Message
  ask : Text → Message
  memory : Text → Text → Message  -- a note or an overview, and its text
  finding : Finding → Message
  verdict : Text → Message
  reply : Text → Text → Message
  artifact : Text → Text → Message

-- The calls of the tools, with their decoded arguments.
pub data Call : Type 0 where
  read_file list_files write_file : Text → Call
  run_check : Text → Call
  outside : Text → Call  -- a tool of trilha-spec's server
  ask_person : Text → Call
  remember : Text → Text → Call
  report_finding : Text ⊎ Finding → Call  -- the error of its decoding, or the finding
  give_verdict : Text → Call
  answer_comment : Text → Text → Call
  publish : Text → Text → Call

-- What the tools take from elsewhere: package task and execution of trilha-spec, and the work that a
-- tool does on files and checks.
pub record World : Type 0 where
  pub split : Text → List Text  -- task.SplitCommand
  pub validate : Finding → Option Text  -- the error of Finding.Validate
  pub work : Call → Text ⊎ Text
  pub may_write : Bool  -- Agent.May
  pub may_run : Bool

-- strings.Join with a zero byte.
unfoldable pub joined_by_nul : List Text → Text
joined_by_nul [] = []
joined_by_nul (t ∷ []) = t
joined_by_nul (t ∷ u ∷ us) = t ++ (0 ∷ joined_by_nul (u ∷ us))

unfoldable pub some_command : (Text → List Text) → Text → List Text → Bool
unfolding joined_by_nul text_eq
some_command split want [] = false
some_command split want (candidate ∷ candidates) =
    text_eq (joined_by_nul (split candidate)) want || some_command split want candidates

-- allowedCommand
unfoldable pub allowed_command : (Text → List Text) → Text → List Text → Bool
unfolding some_command
allowed_command split command allowed =
    let want = joined_by_nul (split command) in
    if is_empty want then false else some_command split want allowed

abbrev pub is_review : Kind → Bool
is_review review = true
is_review _ = false

abbrev pub is_hunt : Kind → Bool
is_hunt hunt = true
is_hunt _ = false

-- Whether Execute puts the tool of a call on the agent's list.
abbrev pub offers : World → Job → Call → Bool
offers w job (read_file path) = true
offers w job (list_files path) = true
offers w job (write_file path) = w.may_write && not job.is_read_only
offers w job (run_check command) = w.may_run
offers w job (outside words) = true
offers w job (ask_person question) = job.is_heard && not job.is_read_only
offers w job (remember kind text) = job.is_heard
offers w job (report_finding f) = job.is_heard && (is_review job.kind || is_hunt job.kind)
offers w job (give_verdict v) = job.is_heard && is_review job.kind
offers w job (answer_comment id text) = job.is_heard && ltb 0 (length job.reply_to)
offers w job (publish name content) = job.is_heard

-- What a tool's function does: its messages, its work, and its answer or error.
pub record Used : Type 0 where
  pub sent : List Message
  pub worked : List Call
  pub answer : Text ⊎ Text

abbrev pub refuse : Text → Used
refuse e = record { sent = []; worked = []; answer = inl e }

abbrev pub send : Message → Text → Used
send message answer = record { sent = message ∷ []; worked = []; answer = inr answer }

abbrev pub is_blank : Text → Bool
is_blank text = is_empty (trim_space text)

-- A finding with a clean path and an end.
abbrev pub normal : Finding → Finding
normal f = record f {
  path = trim_dot (trim_space f.path);
  line_end = if f.line_end == 0 then f.line_start else f.line_end;
}

abbrev pub sent_if : Option Text → Message → Text → Used
sent_if none message answer = send message answer
sent_if (some e) message answer = refuse e

unfoldable pub is_verdict : Text → Bool
unfolding text_eq
is_verdict v = text_eq v (codes "pass") || text_eq v (codes "changes")

unfoldable pub is_document : Text → Bool
unfolding text_eq ext
is_document name =
    text_eq (to_lower (ext name)) (codes ".md") || text_eq (to_lower (ext name)) (codes ".html")

abbrev pub worked_on : World → Call → Used
worked_on w call = record { sent = []; worked = call ∷ []; answer = w.work call }

module _ (w : World) (job : Job) where
  -- The functions of the tools.
  unfoldable pub used : Call → Used
  unfolding allowed_command contains_text is_verdict is_document joined
  used (read_file path) = worked_on w (read_file path)
  used (list_files path) = worked_on w (list_files path)
  used (write_file path) = worked_on w (write_file path)
  used (outside words) = worked_on w (outside words)
  used (run_check command) =
      if allowed_command w.split command job.allowed_checks
      then worked_on w (run_check command)
      else refuse (codes "run_check: command is not allow-listed")
  used (ask_person question) =
      if is_blank question
      then refuse (codes "ask: the question is empty")
      else send (ask question) (
          codes
            "Your question was recorded and will reach a person; the answer comes in a new session. Stop now: call no more tools and end your turn with one line saying what you did so far.")
  used (remember kind text) =
      if is_blank text
      then refuse (kind ++ codes ": the text is empty")
      else send (memory kind text) (kind ++ codes " recorded")
  used (report_finding (inl e)) = refuse (codes "finding: " ++ e)
  used (report_finding (inr f)) =
      sent_if (w.validate (normal f)) (finding (normal f)) (codes "finding recorded")
  used (give_verdict v) =
      if is_verdict v
      then send (verdict v) (codes "verdict recorded")
      else refuse (codes "verdict: pass or changes")
  used (answer_comment id text) =
      if not (contains_text job.reply_to id) || is_blank text
      then refuse (
          codes "reply: the id must be one of "
          ++ joined job.reply_to
          ++ codes " and the reply not empty")
      else send (reply id text) (codes "reply recorded")
  used (publish name content) =
      if is_document name
      then send (artifact name content) (codes "artifact sent to the runner")
      else refuse (codes "artifact: the name must end in .md or .html")

-- The loop of an agent: `log` and `worked` hold the newest first.
pub record Session : Type 0 where
  pub log : List Message
  pub worked : List Call
  pub asked : Bool
  pub refusals : ℕ
  pub is_stopped : Bool

abbrev pub fresh : Session
fresh = record { log = []; worked = []; asked = false; refusals = 0; is_stopped = false }

abbrev pub is_ask : Call → Bool
is_ask (ask_person question) = true
is_ask _ = false

-- The messages of a tool's function, the newest first.
unfoldable pub heard : List Message → List Message → List Message
heard [] log = log
heard (m ∷ ms) log = heard ms (m ∷ log)

module _ (w : World) (job : Job) where
  -- A tool as signalled wraps it, when the job has a listener; the function of ask sends its question
  -- exactly when it stores that it asked.
  unfoldable pub signalled : Call → Session → Session × (Text ⊎ Text)
  unfolding used heard
  signalled call s =
      let u = used w job call in
      if is_ask call
      then (
        record s {
          log = heard u.sent s.log;
          worked = u.worked ++ s.worked;
          asked = s.asked || ltb 0 (length u.sent);
        },
        u.answer,
      )
      else if s.asked
      then (
        record s { refusals = s.refusals + 1; is_stopped = s.is_stopped || leb 3 (s.refusals + 1) },
        inl (codes "you already asked a question: stop now and end your turn"),
      )
      else (
        record s {
          log = tool_end ∷ heard u.sent (tool_start ∷ s.log);
          worked = u.worked ++ s.worked;
        },
        u.answer,
      )

  -- A call of the loop: a tool that is not offered is unknown to it, and without a listener the
  -- functions stand alone.
  unfoldable pub called : Call → Session → Session
  unfolding signalled
  called call s =
      if not (offers w job call)
      then s
      else if job.is_heard
      then (signalled call s).0
      else record s { worked = (used w job call).worked ++ s.worked }

  unfoldable pub session : List Call → Session → Session
  unfolding called
  session [] s = s
  session (call ∷ calls) s = session calls (called call s)
