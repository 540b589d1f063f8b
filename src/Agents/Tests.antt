-- ===== src/Agents/Tests.antt =====
-- An agent's session on concrete messages.
use trilha_runner.Prelude.{
  ℕ, ◌≡◌, ◌⊎◌, ◌↔◌, ◌≤◌, refl, Bool, true, false, List, [], ◌∷◌, none, some, Text, codes, is_empty,
  text_eq, contains, has_prefix, take, length, length-take, trim_space, arith,
}
use trilha_runner.Agents.{
  Protocol, Message, note, ask, Session, scan, scan_known, scan_patterns, replace_all, new_reporter,
  apply, flush, close, handle, raise, record_question, handle_type, take_question,
}
use trilha_runner.Agents.Redaction.{IsClear, scan_lem}
use trilha_runner.Agents.Reports.{
  SentLast, Keeps, Changes, Happening, told, fired, happen_all, reporter-Keeps,
}
use trilha_runner.Agents.Limits.{Bounded, handle-Bounded}

abbrev protocol : Protocol
protocol = record {
  next_state = λ event state. event;
  truncate = λ t n. take n t;
  max_question = 8;
  max_note = 4;
  max_notes = 1;
  max_overview = 5;
  max_reason = 5;
  asked_event = codes "asked";
  stop_failure = codes "failure";
}

truncate_cuts : (t : Text) (n : ℕ) → length (protocol.truncate t n) ≤ n
truncate_cuts t n = omega (arith, length-take n t)

abbrev secrets : List Text
secrets = codes "swordfish" ∷ codes "short" ∷ []

abbrev fresh : Session
fresh = record {
  question = none;
  kept_back = [];
  notes = [];
  overview = [];
  session_id = [];
  state = new_reporter 100;
  raised = [];
}

abbrev happenings : List Happening
happenings = told 1 (codes "busy") ∷ told 2 (codes "idle") ∷ told 3 (codes "busy") ∷ fired 101 ∷ []

scan_lem_example :
    (((scan [] secrets (codes "a short one")).1 ≡ false) ↔ IsClear [] secrets (codes "a short one"))
    × (((scan [] secrets (codes "a short one")).1 ≡ false)
        → (scan [] secrets (codes "a short one")).0 ≡ codes "a short one")
scan_lem_example = scan_lem [] secrets (codes "a short one")

reporter-Keeps_example :
    Keeps (happen_all protocol happenings (new_reporter 100))
    × Changes (close 200 (happen_all protocol happenings (new_reporter 100))).log
    × ((close 200 (happen_all protocol happenings (new_reporter 100))).pending ≡ false)
    × ((close 200 (happen_all protocol happenings (new_reporter 100))).current
        ≡ (happen_all protocol happenings (new_reporter 100)).current)
    × (SentLast
          (happen_all protocol happenings (new_reporter 100)).current
          (close 200 (happen_all protocol happenings (new_reporter 100))).log
        ⊎ (is_empty (happen_all protocol happenings (new_reporter 100)).current ≡ true))
reporter-Keeps_example = reporter-Keeps protocol 100 200 happenings

handle-Bounded_example :
    Bounded protocol length refl truncate_cuts [] secrets
      (handle protocol [] secrets 1 (codes "s1") (note (codes "swordfish in a note")) fresh)
handle-Bounded_example =
    handle-Bounded protocol length refl truncate_cuts [] secrets 1 (codes "s1")
      (note (codes "swordfish in a note")) fresh (tt, tt, omega arith, omega arith, omega arith, tt)

unfoldable scanned : Text → Text × Bool
unfolding scan scan_known scan_patterns replace_all contains has_prefix
scanned text = scan [] secrets text

masked : scanned (codes "a swordfish!") ≡ (codes "a [REDACTED]!", true)
unfolding scanned
masked = refl

unfoldable after_message : Message → Session
unfolding scan scan_known scan_patterns replace_all contains has_prefix trim_space text_eq raise
    record_question apply handle_type handle
after_message m = handle protocol [] secrets 1 [] m fresh

question_kept :
    ((after_message (ask (codes " why? "))).question ≡ some (codes "why?"))
    × ((after_message (ask (codes "swordfish"))).question ≡ some (codes "The agen"))
    × ((after_message (ask (codes "why"))).state.sent ≡ codes "asked")
    × ((take_question (after_message (ask (codes "why")))).1.question ≡ none)
unfolding after_message take_question
question_kept = (refl, refl, refl, refl)

abbrev late_timer : List Happening
late_timer =
    told 1 (codes "a")
    ∷ told 50 (codes "b")
    ∷ told 101 (codes "c")
    ∷ told 102 (codes "d")
    ∷ fired 103
    ∷ []

unfoldable log_of : List Happening → List (Text × ℕ)
unfolding apply flush text_eq
log_of xs = (happen_all protocol xs (new_reporter 100)).log

-- A timer that ends late, after a report that was due was sent, sends again within the interval.
sent_early : log_of late_timer ≡ ((codes "d", 103) ∷ (codes "c", 101) ∷ (codes "a", 1) ∷ [])
unfolding log_of
sent_early = refl
