-- ===== src/Worker/Outbox/Fates.antt =====
-- What a delivery of cmd/trilha-runner/outbox.go comes to, and what a flush does to the files.
use trilha_runner.Prelude.{
  ℕ, if◌then◌else◌, ◌==◌, zero, suc, min, ◌∙◌, ap, map, ◌+◌, ◌≤◌, ◌≡◌, ◌⊎◌, refl, Bool, true, false,
  List, [], ◌∷◌, ◌++◌, some, Text, codes, length, All, Any, arith, contains_byte, ◌≢◌,
}
use trilha_runner.Worker.Outbox.{
  Try, Fate, settle, next_delay, deliver_from, first_delay, deliver, Left, removed, rejected, stays,
  Pending, is_safe_run_id, all_name_bytes,
}
use trilha_runner.Worker.Outbox.Answers.{
  Clears, MayChange, Refuses, Settles, settle-Settles, settle-MayChange,
}

-- A post that is tried again: its answer may change, and the worker goes on.
abbrev pub IsRetried : Try → Type 0
IsRetried t = MayChange t.answer × (t.ended_before ≡ false) × (t.ended_waiting ≡ false)

abbrev pub doubled : ℕ → ℕ → ℕ
doubled first zero = first
doubled first (suc n) = doubled first n + doubled first n

-- The n-th wait from the first one: doubled n times, and thirty seconds at most from the second on.
abbrev pub wait_at : ℕ → ℕ → ℕ
wait_at first zero = first
wait_at first (suc n) = min (doubled first (suc n)) 30_000_000_000

next_delay-wait_at : (first n : ℕ) → next_delay (wait_at first n) ≡ wait_at first (suc n)
next_delay-wait_at first zero = ground arith
next_delay-wait_at first (suc n) = ground arith

-- So many waits from the n-th on.
abbrev pub backoff : ℕ → ℕ → ℕ → List ℕ
backoff first n zero = []
backoff first n (suc more) = wait_at first n ∷ backoff first (suc n) more

deliver_from-append :
    (first n : ℕ) (xs : List Try) (t : Try) (ys : List Try) (f : Fate)
    → All IsRetried xs
    → settle t.answer ≡ some f
    → deliver_from (wait_at first n) (xs ++ (t ∷ ys))
      ≡ record { fate = f; waits = backoff first n (length xs); posts = length xs + 1 }
unfolding deliver_from
deliver_from-append first n [] t ys f h s = rw (deliver_from, s) refl
deliver_from-append first n (x ∷ xs) t ys f (retried, h) s =
    let k : deliver_from (next_delay (wait_at first n)) (xs ++ (t ∷ ys))
        ≡ record { fate = f; waits = backoff first (suc n) (length xs); posts = length xs + 1 } =
      ap (λ d. deliver_from d (xs ++ (t ∷ ys))) (next_delay-wait_at first n)
      ∙ deliver_from-append first (suc n) xs t ys f h s in
    let again = (settle-MayChange x.answer).1 retried.0 in
    let one : length xs + 1 ≡ suc (length xs) = omega arith in
    rw (deliver_from, again, retried.1, retried.2, k, one) refl

-- A delivery goes on until the first answer that settles it: with 2xx and 409 the result is cleared,
-- and with any other status below 500 but 408 and 429 it is set aside. Before that there is one post
-- for each answer, no answer, 408, 429 or a status from 500, and a wait after each: the first is the
-- base, one second for none, and each further one the double, thirty seconds at most.
pub deliver-append :
    (retry_base : ℕ) (xs : List Try) (t : Try) (ys : List Try) (f : Fate)
    → All IsRetried xs
    → Settles f t.answer
    → deliver retry_base (xs ++ (t ∷ ys)) ≡ record {
      fate = f;
      waits = backoff (if retry_base == 0 then 1_000_000_000 else retry_base) 0 (length xs);
      posts = length xs + 1;
    }
unfolding deliver
deliver-append retry_base xs t ys f h s =
    deliver_from-append (first_delay retry_base) 0 xs t ys f h ((settle-Settles t.answer f).1 s)

-- The file of a result goes only with an answer that clears it, and is set aside only when it
-- cannot be read as a result or an answer refuses it for good. One that cannot be opened stays.
abbrev pub IsRight : Pending × Left → Type 0
IsRight (p, removed) =
    (p.readable ≡ true) × (p.well_formed ≡ true) × Any (λ t. Clears t.answer) p.tries
IsRight (p, rejected) =
    (p.readable ≡ true) × ((p.well_formed ≡ false) ⊎ Any (λ t. Refuses t.answer) p.tries)
IsRight (p, stays) = Unit

-- A flush comes to the pending results in their order, and to all of them unless it is stopped.
abbrev pub IsCovered : List Pending → List (Pending × Left) × Bool → Type 0
IsCovered ps (done, whole) =
    (rest : List Pending) × (map (λ x. x.0) done ++ rest ≡ ps) × ((whole ≡ false) ⊎ (rest ≡ []))

all_name_bytes_lem : (s : Text) → all_name_bytes s ≡ true → contains_byte s b'/' ≡ false
unfolding all_name_bytes contains_byte
all_name_bytes_lem [] h = refl
all_name_bytes_lem (c ∷ s) h = ground (arith, all_name_bytes_lem s)

differs : (s t : Text) → is_safe_run_id s ≡ true → is_safe_run_id t ≡ false → s ≢ t
differs s t h k = λ e. ground (arith, rw e at h, k)

-- A run id that may name a directory has at most 64 bytes, no slash, and is not "." or "..", so
-- that the outbox of a run lies in its own directory.
pub is_safe_run_id_lem :
    (s : Text)
    → is_safe_run_id s ≡ true
    → (contains_byte s b'/' ≡ false) × (length s ≤ 64) × (s ≢ codes ".") × (s ≢ codes "..")
unfolding is_safe_run_id contains_byte
is_safe_run_id_lem [] h = absurd (ground arith)
is_safe_run_id_lem (c ∷ s) h = (
  ground (arith, all_name_bytes_lem s),
  ground arith,
  differs (c ∷ s) (codes ".") h refl,
  differs (c ∷ s) (codes "..") h refl,
)
