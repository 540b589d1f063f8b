-- ===== src/Worker/Outbox.antt =====
-- cmd/trilha-runner/outbox.go: the results that wait on disk, and their delivery; with the errors
-- of a control plane in queue/remote.go.
pub mod Answers
pub mod Fates
pub mod Finding
pub mod Oldest
mod Tests
use trilha_runner.Prelude.{
  ℕ, zero, suc, ◌+◌, ◌*◌, ltb, leb, ◌==◌, Bool, true, false, ◌&&◌, ◌||◌, not, List, [], ◌∷◌, ◌++◌,
  Option, none, some, Text, codes, is_empty, length, if◌then◌else◌,
}

-- How the control plane takes a result: with 2xx, with another status, or not at all.
pub data Answer : Type 0 where
  taken : Answer
  refused : ℕ → Answer
  lost : Answer

-- StatusError.Retryable
unfoldable pub is_retryable : ℕ → Bool
is_retryable code = leb 500 code || code == 408 || code == 429

-- One post, and whether the worker's context had ended after it, or ended in the wait for the
-- next one.
pub record Try : Type 0 where
  pub answer : Answer
  pub ended_before : Bool
  pub ended_waiting : Bool

pub data Fate : Type 0 where
  cleared set_aside interrupted unsettled : Fate

pub record Delivery : Type 0 where
  pub fate : Fate
  pub waits : List ℕ
  pub posts : ℕ

-- The switch of deliver.
unfoldable pub settle : Answer → Option Fate
settle taken = some cleared
settle (refused code) =
    if code == 409 then some cleared else if is_retryable code then none else some set_aside
settle lost = none

-- Durations are in nanoseconds.
abbrev pub default_retry_base : ℕ
default_retry_base = 1_000_000_000

abbrev pub max_delivery_backoff : ℕ
max_delivery_backoff = 30_000_000_000

abbrev pub next_delay : ℕ → ℕ
next_delay delay = if ltb max_delivery_backoff (delay * 2) then max_delivery_backoff else delay * 2

-- The loop of deliver over the posts that there is time for; `unsettled` when it still goes on
-- after the last of them.
unfoldable pub deliver_from : ℕ → List Try → Delivery
deliver_from delay [] = record { fate = unsettled; waits = []; posts = 0 }
deliver_from delay (t ∷ ts) =
    let rest = deliver_from (next_delay delay) ts in
    elim (settle t.answer) [
      | some f ↦ record { fate = f; waits = []; posts = 1 }
      | none ↦
          if t.ended_before
          then record { fate = interrupted; waits = []; posts = 1 }
          else if t.ended_waiting
          then record { fate = interrupted; waits = delay ∷ []; posts = 1 }
          else record { fate = rest.fate; waits = delay ∷ rest.waits; posts = rest.posts + 1 }
    ]

abbrev pub first_delay : ℕ → ℕ
first_delay retry_base = if retry_base == 0 then default_retry_base else retry_base

-- deliver; a negative base as 0.
unfoldable pub deliver : ℕ → List Try → Delivery
deliver retry_base tries = deliver_from (first_delay retry_base) tries

-- What becomes of the file of a result.
pub data Left : Type 0 where
  removed rejected stays : Left

abbrev pub left_by : Fate → Left
left_by cleared = removed
left_by set_aside = rejected
left_by interrupted = stays
left_by unsettled = stays

abbrev pub is_settled : Fate → Bool
is_settled cleared = true
is_settled set_aside = true
is_settled interrupted = false
is_settled unsettled = false

pub record Pending : Type 0 where
  pub path : Text
  pub readable : Bool
  pub well_formed : Bool  -- it decodes, and its run id is safe
  pub tries : List Try

-- flushOutbox over the pending results: the files it came to, with what became of them, and
-- whether it came to the end.
unfoldable pub flush_outbox : ℕ → List Pending → List (Pending × Left) × Bool
flush_outbox retry_base [] = ([], true)
flush_outbox retry_base (p ∷ ps) =
    let (rest, good) = flush_outbox retry_base ps in
    let fate = (deliver retry_base p.tries).fate in
    if not p.readable
    then ((p, stays) ∷ rest, good)
    else if not p.well_formed
    then ((p, rejected) ∷ rest, good)
    else if is_settled fate
    then ((p, left_by fate) ∷ rest, good)
    else ((p, stays) ∷ [], false)

abbrev pub is_alphanumeric : ℕ → Bool
is_alphanumeric c =
    (leb b'A' c && leb c b'Z') || (leb b'a' c && leb c b'z') || (leb b'0' c && leb c b'9')

abbrev pub is_name_byte : ℕ → Bool
is_name_byte c = is_alphanumeric c || c == b'.' || c == b'_' || c == b'-'

unfoldable pub all_name_bytes : Text → Bool
all_name_bytes [] = true
all_name_bytes (c ∷ s) = is_name_byte c && all_name_bytes s

-- safeRunID: ^[A-Za-z0-9][A-Za-z0-9._-]{0,63}$
unfoldable pub is_safe_run_id : Text → Bool
unfolding all_name_bytes
is_safe_run_id [] = false
is_safe_run_id (c ∷ s) = is_alphanumeric c && all_name_bytes s && leb (length s) 63

-- The elements that outboxPath joins under a checkout.
abbrev pub outbox_path : Text → Text → Option (List Text)
outbox_path root run_id =
    if is_empty root || not (is_safe_run_id run_id)
    then none
    else some (root ∷ codes ".trilha" ∷ codes "runs" ∷ run_id ∷ codes "result.json" ∷ [])
