-- ===== src/Agents.antt =====
-- runner/agent.go and internal/redact/redact.go: what an agent tells the runner while it runs.
mod Redaction
mod Reports
pub mod Findings
pub mod Handing
pub mod Entries
pub mod Kept
pub mod Attaching
pub mod Attached
pub mod Verdicts
mod Handovers
mod Limits
mod Tests
use trilha_runner.Prelude.{
  ℕ, zero, suc, ◌+◌, ◌-◌, leb, ltb, ◌==◌, Bool, true, false, ◌&&◌, ◌||◌, not, List, [], ◌∷◌, ◌++◌,
  Option, none, some, is_some, Text, codes, text_eq, is_empty, contains, has_prefix, trim_space,
  length, drop, if◌then◌else◌,
}

-- A regular expression of Go, as its two uses.
pub record Pattern : Type 0 where
  pub matches : Text → Bool
  pub replaced : Text → Text → Text  -- ReplaceAllString of a text by a mask

abbrev pub mask : Text
mask = codes "[REDACTED]"

abbrev pub notice : Text
notice =
    codes
      "The agent asked a question that contained a secret, so it is not shown here; read it on the runner (.trilha/runs/<task>/question.txt)."

-- strings.ReplaceAll of a word that is not empty; `skip` bytes of a match are still to pass.
unfoldable pub replace_all : Text → Text → ℕ → Text → Text
unfolding has_prefix
replace_all word by skip [] = []
replace_all word by (suc skip) (c ∷ s) = replace_all word by skip s
replace_all word by zero (c ∷ s) =
    let after = replace_all word by (length word - 1) s in
    let next = replace_all word by zero s in
    if has_prefix (c ∷ s) word then by ++ after else c ∷ next

unfoldable pub scan_known : List Text → Text × Bool → Text × Bool
scan_known [] (text, found) = (text, found)
scan_known (secret ∷ secrets) (text, found) = scan_known secrets (
    if leb 6 (length secret) && contains text secret
    then (replace_all secret mask 0 text, true)
    else (text, found))

unfoldable pub scan_patterns : List Pattern → Text × Bool → Text × Bool
scan_patterns [] (text, found) = (text, found)
scan_patterns (p ∷ ps) (text, found) =
    scan_patterns ps (if p.matches text then (p.replaced text mask, true) else (text, found))

-- redact.Scan
unfoldable pub scan : List Pattern → List Text → Text → Text × Bool
scan patterns known text = scan_patterns patterns (scan_known known (text, false))

-- The protocol's side, package execution: agent states are texts, "" for none.
pub record Protocol : Type 0 where
  pub next_state : Text → Text → Text  -- NextAgentState of an event and a state
  pub truncate : Text → ℕ → Text
  pub max_question : ℕ
  pub max_note : ℕ
  pub max_notes : ℕ
  pub max_overview : ℕ
  pub max_reason : ℕ
  pub asked_event : Text
  pub stop_failure : Text

-- stateReporter: `log` holds the states that were sent, the newest first, with their times.
pub record Reporter : Type 0 where
  pub interval : ℕ
  pub current : Text
  pub sent : Text
  pub last_sent : Option ℕ
  pub pending : Bool
  pub log : List (Text × ℕ)

-- newStateReporter; a negative interval as 0, in nanoseconds.
abbrev pub new_reporter : ℕ → Reporter
new_reporter interval = record {
  interval = if interval == 0 then 2_000_000_000 else interval;
  current = [];
  sent = [];
  last_sent = none;
  pending = false;
  log = [];
}

abbrev pub send_locked : ℕ → Reporter → Reporter
send_locked now r = record r {
  sent = r.current;
  last_sent = some now;
  log = (r.current, now) ∷ r.log;
}

-- Whether the time since the last report is at least the interval.
abbrev pub is_due : ℕ → ℕ → Option ℕ → Bool
is_due interval now none = true
is_due interval now (some last) = leb (last + interval) now

abbrev pub is_news : Reporter → Bool
is_news r = not (text_eq r.current r.sent) && not (is_empty r.current)

module _ (p : Protocol) where
  unfoldable pub apply : ℕ → Text → Reporter → Reporter
  apply now event r0 =
      let r = record r0 { current = p.next_state event r0.current } in
      if not (is_news r)
      then r
      else if is_due r.interval now r.last_sent
      then send_locked now r
      else record r { pending = true }

unfoldable pub flush : ℕ → Reporter → Reporter
flush now r0 = let r = record r0 { pending = false } in if is_news r then send_locked now r else r

-- close of the reporter: the timer is stopped, and a held change sent now.
unfoldable pub close : ℕ → Reporter → Reporter
unfolding flush
close now r = flush now (record r { pending = false })

pub record Attention : Type 0 where
  pub reason : Text
  pub is_clear : Bool

pub data Message : Type 0 where
  event : Text → Text → Message  -- the event and a text
  ask : Text → Message
  attention : Text → Bool → Message
  note : Text → Message
  overview : Text → Message
  report : Message  -- a finding, a verdict, a reply or an artifact

-- agentSession, but for its report; `kept_back` is question.txt and `raised` the attentions sent.
pub record Session : Type 0 where
  pub question : Option Text
  pub kept_back : Text
  pub notes : List Text
  pub overview : Text
  pub session_id : Text
  pub state : Reporter
  pub raised : List Attention

module _ (p : Protocol) (patterns : List Pattern) (secrets : List Text) where
  abbrev pub clean : Text → Text
  clean text = (scan patterns secrets text).0

  unfoldable pub raise : Attention → Session → Session
  raise a s =
      let reason =
        if is_empty a.reason then a.reason else p.truncate (clean a.reason) p.max_reason in
      if is_empty reason && not a.is_clear
      then s
      else record s { raised = s.raised ++ (record a { reason = reason } ∷ []) }

  unfoldable pub record_question : Text → Session → Session
  record_question text s =
      let (cleaned, found) = scan patterns secrets text in
      record s {
        question = some (p.truncate (if found then notice else cleaned) p.max_question);
        kept_back = text ++ codes "\n";
      }

  abbrev pub last_notes : List Text → List Text
  last_notes notes = drop (length notes - p.max_notes) notes

  unfoldable pub handle_type : ℕ → Message → Session → Session
  unfolding raise record_question apply
  handle_type now (event e text) s =
      let s1 = record s { state = apply p now e s.state } in
      let reason = if is_empty text then codes "provider error" else text in
      if text_eq e p.stop_failure
      then raise (record { reason = reason; is_clear = false }) s1
      else s1
  handle_type now (ask words) s =
      let text = trim_space words in
      let s1 = record_question text s in
      if is_empty text then s else record s1 { state = apply p now p.asked_event s1.state }
  handle_type now (attention text clear) s =
      raise (record { reason = trim_space text; is_clear = clear }) s
  handle_type now (note words) s =
      let content = clean (trim_space words) in
      if is_empty content
      then s
      else record s { notes = last_notes (s.notes ++ (p.truncate content p.max_note ∷ [])) }
  handle_type now (overview words) s = record s {
    overview = p.truncate (clean (trim_space words)) p.max_overview;
  }
  handle_type now report s = s

  -- handle: a message with the session id that it carries.
  unfoldable pub handle : ℕ → Text → Message → Session → Session
  unfolding handle_type
  handle now id m s =
      let named = if not (is_empty id) && leb (length id) 128 then id else s.session_id in
      handle_type now m (record s { session_id = named })

unfoldable pub take_question : Session → Option Text × Session
take_question s = (s.question, record s { question = none })
