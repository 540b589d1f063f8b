-- ===== src/Drivers/Sessions.antt =====
-- What the tools of driver/ai.go signal in a session, and what they do after a question.
use trilha_runner.Prelude.{
  ltb, leb, Bool, true, false, ◌&&◌, ◌||◌, not, List, [], ◌∷◌, ◌⊎◌, inl, inr, Option, none, some,
  Text, codes, length, if_ind, All, All-append, ◌≡◌, refl, sym, ap, ◌∙◌, arith,
}
use trilha_runner.Agents.Findings.{Finding, contains_text}
use trilha_runner.Drivers.{Job}
use trilha_runner.Drivers.Tools.{
  Message, Call, World, allowed_command, is_review, is_hunt, offers, Used, is_blank, normal,
  sent_if, is_verdict, is_document, used, Session, fresh, is_ask, heard, signalled, called, session,
  tool_start, tool_end, ask, memory, finding, verdict, reply, artifact, read_file, list_files,
  write_file, run_check, outside, ask_person, remember, report_finding, give_verdict,
  answer_comment, publish,
}

abbrev pub IsAsk : Message → Type 0
IsAsk (ask question) = Unit
IsAsk _ = ⊥

abbrev pub is_question : Message → Bool
is_question (ask question) = true
is_question _ = false

abbrev pub has_question : List Message → Bool
has_question [] = false
has_question (m ∷ ms) = is_question m || has_question ms

-- Of messages with the newest first: a question is followed by questions only.
abbrev pub QuestionsLast : List Message → Type 0
QuestionsLast [] = Unit
QuestionsLast (m ∷ ms) = ((has_question ms ≡ true) → is_question m ≡ true) × QuestionsLast ms

abbrev pub is_write : Call → Bool
is_write (write_file path) = true
is_write _ = false

module _ (w : World) (job : Job) where
  -- A message that this job may send.
  abbrev pub Allowed : Message → Type 0
  Allowed tool_start = Unit
  Allowed tool_end = Unit
  Allowed (ask question) = (is_blank question ≡ false) × (job.is_read_only ≡ false)
  Allowed (memory kind text) = is_blank text ≡ false
  Allowed (finding f) = (w.validate f ≡ none) × (is_review job.kind || is_hunt job.kind ≡ true)
  Allowed (verdict v) = (is_verdict v ≡ true) × (is_review job.kind ≡ true)
  Allowed (reply id text) = (contains_text job.reply_to id ≡ true) × (is_blank text ≡ false)
  Allowed (artifact name content) = is_document name ≡ true

  abbrev pub MayWork : Call → Type 0
  MayWork call = (offers w job call ≡ true) × ((is_write call ≡ true) → job.is_read_only ≡ false)

  -- What a session keeps to.
  abbrev pub IsOrderly : Session → Type 0
  IsOrderly s =
      All Allowed s.log
      × QuestionsLast s.log
      × (s.asked ≡ has_question s.log)
      × (s.is_stopped ≡ leb 3 s.refusals)
      × ((s.asked ≡ false) → s.refusals ≡ 0)
      × All MayWork s.worked

  -- What the function of a tool that is offered gives.
  abbrev Sound : Call → Used → Type 0
  Sound call u =
      All Allowed u.sent
      × (has_question u.sent ≡ is_ask call && ltb 0 (length u.sent))
      × All MayWork u.worked

  sent_if-Sound :
      (g f : Finding) (answer : Text) (e : Option Text)
      → (w.validate f ≡ e)
      → (is_review job.kind || is_hunt job.kind ≡ true)
      → Sound (report_finding (inr g)) (sent_if e (finding f) answer)
  sent_if-Sound g f answer none valid kind = (((valid, kind), tt), refl, tt)
  sent_if-Sound g f answer (some e) valid kind = (tt, refl, tt)

  used-Sound : (call : Call) → (offers w job call ≡ true) → Sound call (used w job call)
  unfolding used
  used-Sound (read_file path) offered = (tt, refl, ((offered, λ h. cc), tt))
  used-Sound (list_files path) offered = (tt, refl, ((offered, λ h. cc), tt))
  used-Sound (write_file path) offered = (tt, refl, ((offered, λ _. ground (arith, offered)), tt))
  used-Sound (outside words) offered = (tt, refl, ((offered, λ h. cc), tt))
  used-Sound (run_check command) offered =
      if_ind (Sound (run_check command)) (allowed_command w.split command job.allowed_checks)
        (λ _. (tt, refl, ((offered, λ h. cc), tt))) (λ _. (tt, refl, tt))
  used-Sound (ask_person question) offered =
      if_ind (Sound (ask_person question)) (is_blank question) (λ _. (tt, refl, tt))
        (λ words. (((words, ground (arith, offered)), tt), refl, tt))
  used-Sound (remember kind text) offered =
      if_ind (Sound (remember kind text)) (is_blank text) (λ _. (tt, refl, tt))
        (λ words. ((words, tt), refl, tt))
  used-Sound (report_finding (inl e)) offered = (tt, refl, tt)
  used-Sound (report_finding (inr f)) offered =
      sent_if-Sound f (normal f) (codes "finding recorded") (w.validate (normal f)) refl
        (ground (arith, offered))
  used-Sound (give_verdict v) offered =
      if_ind (Sound (give_verdict v)) (is_verdict v)
        (λ good. (((good, ground (arith, offered)), tt), refl, tt)) (λ _. (tt, refl, tt))
  used-Sound (answer_comment id text) offered =
      if_ind (Sound (answer_comment id text)) (not (contains_text job.reply_to id) || is_blank text)
        (λ _. (tt, refl, tt))
        (λ good. (((ground (arith, good), ground (arith, good)), tt), refl, tt))
  used-Sound (publish name content) offered =
      if_ind (Sound (publish name content)) (is_document name) (λ good. ((good, tt), refl, tt))
        (λ _. (tt, refl, tt))

  heard-Allowed :
      (sent log : List Message) → All Allowed sent → All Allowed log → All Allowed (heard sent log)
  unfolding heard
  heard-Allowed [] log hs hl = hl
  heard-Allowed (m ∷ ms) log (hm, hs) hl = heard-Allowed ms (m ∷ log) hs (hm, hl)

  -- Messages without a question, after none.
  heard-quiet :
      (sent log : List Message)
      → (has_question sent ≡ false)
      → (has_question log ≡ false)
      → QuestionsLast log
      → QuestionsLast (heard sent log) × (has_question (heard sent log) ≡ false)
  unfolding heard
  heard-quiet [] log none_sent quiet last = (last, quiet)
  heard-quiet (m ∷ ms) log none_sent quiet last =
      heard-quiet ms (m ∷ log) (ground (arith, none_sent)) (ground (arith, none_sent, quiet))
        ((λ h. absurd (ground (arith, h, quiet))), last)

  used-questions :
      (call : Call) → (is_ask call ≡ true) → All (λ m. is_question m ≡ true) (used w job call).sent
  unfolding used
  used-questions (ask_person question) asking =
      if_ind (λ (u : Used). All (λ m. is_question m ≡ true) u.sent) (is_blank question) (λ _. tt)
        (λ _. (refl, tt))
  used-questions (read_file path) asking = cc
  used-questions (list_files path) asking = cc
  used-questions (write_file path) asking = cc
  used-questions (outside words) asking = cc
  used-questions (run_check command) asking = cc
  used-questions (remember kind text) asking = cc
  used-questions (report_finding f) asking = cc
  used-questions (give_verdict v) asking = cc
  used-questions (answer_comment id text) asking = cc
  used-questions (publish name content) asking = cc

  -- Questions, after anything.
  heard-questions :
      (sent log : List Message)
      → All (λ m. is_question m ≡ true) sent
      → QuestionsLast log
      → QuestionsLast (heard sent log)
        × (has_question log || ltb 0 (length sent) ≡ has_question (heard sent log))
  unfolding heard
  heard-questions [] log hs last = (last, ground arith)
  heard-questions (m ∷ ms) log (hm, hs) last =
      let (later, found) = heard-questions ms (m ∷ log) hs ((λ _. hm), last) in
      (later, ground (arith, found, hm))

  fresh-IsOrderly : IsOrderly fresh
  fresh-IsOrderly = (tt, tt, refl, refl, λ _. refl, tt)

  signalled-IsOrderly :
      (call : Call) (s : Session)
      → (offers w job call ≡ true)
      → IsOrderly s
      → IsOrderly (signalled w job call s).0
  unfolding signalled
  signalled-IsOrderly call s offered (allowed, last, asks, stops, calm, worked) =
      let (sent, questions, work) = used-Sound call offered in
      if_ind (λ (x : Session × (Text ⊎ Text)). IsOrderly x.0) (is_ask call)
        (λ asking.
          let (later, found) =
            heard-questions (used w job call).sent s.log (used-questions call asking) last in
          (
            heard-Allowed (used w job call).sent s.log sent allowed,
            later,
            ap (λ b. b || ltb 0 (length (used w job call).sent)) asks ∙ found,
            stops,
            λ h. calm (ground (arith, h)),
            All-append MayWork (used w job call).worked s.worked work worked,
          ))
        (λ other.
          if_ind (λ (x : Session × (Text ⊎ Text)). IsOrderly x.0) s.asked
            (λ asked. (
              allowed,
              last,
              asks,
              ground (arith, stops),
              λ h. absurd (ground (arith, h, asked)),
              worked,
            ))
            (λ quiet.
              let u = used w job call in
              let none_yet : has_question s.log ≡ false = sym asks ∙ quiet in
              let (later, still) =
                heard-quiet u.sent (tool_start ∷ s.log) (ground (arith, questions, other)) none_yet
                  ((λ h. absurd (ground (arith, h, none_yet))), last) in
              (
                (tt, heard-Allowed u.sent (tool_start ∷ s.log) sent (tt, allowed)),
                ((λ h. absurd (ground (arith, h, still))), later),
                quiet ∙ sym still,
                stops,
                calm,
                All-append MayWork u.worked s.worked work worked,
              )))

  called-IsOrderly : (call : Call) (s : Session) → IsOrderly s → IsOrderly (called w job call s)
  unfolding called
  called-IsOrderly call s (allowed, last, asks, stops, calm, worked) =
      if_ind IsOrderly (not (offers w job call)) (λ _. (allowed, last, asks, stops, calm, worked))
        (λ offered.
          let known : offers w job call ≡ true = ground (arith, offered) in
          if_ind IsOrderly job.is_heard
            (λ _. signalled-IsOrderly call s known (allowed, last, asks, stops, calm, worked))
            (λ _. (
              allowed,
              last,
              asks,
              stops,
              calm,
              All-append MayWork (used w job call).worked s.worked (used-Sound call known).2 worked,
            )))

  session_on-IsOrderly :
      (calls : List Call) (s : Session) → IsOrderly s → IsOrderly (session w job calls s)
  unfolding session
  session_on-IsOrderly [] s orderly = orderly
  session_on-IsOrderly (call ∷ calls) s orderly =
      session_on-IsOrderly calls (called w job call s) (called-IsOrderly call s orderly)

-- Whatever tools a model calls, every message of the session is one that its job may send: a valid
-- finding in a review or a hunt, a verdict in a review, a reply that is not empty to a comment of the
-- job, a document, a note, or a question from a job that may write. After a question come questions
-- only, so that no other tool starts; refusals come after a question only, and the loop is stopped
-- exactly when there are three or more. A file is written only by a job that is not read-only, and
-- only tools that the job offers do any work.
pub session-IsOrderly :
    (w : World) (job : Job) (calls : List Call) → IsOrderly w job (session w job calls fresh)
session-IsOrderly w job calls = session_on-IsOrderly w job calls fresh (fresh-IsOrderly w job)
