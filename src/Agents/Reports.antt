-- ===== src/Agents/Reports.antt =====
-- The agent states that the stateReporter of runner/agent.go sends.
use trilha_runner.Prelude.{
  ℕ, ◌≡◌, ◌⊎◌, inl, inr, refl, sym, subst, true, false, ◌&&◌, not, List, [], ◌∷◌, Text, text_eq,
  text_eq_refl, eq_of_text_eq, is_empty, if_ind, arith, Bool-cases,
}
use trilha_runner.Agents.{
  Protocol, Reporter, new_reporter, send_locked, is_due, is_news, apply, flush, close,
}

-- Sent states, the newest first: none is "", and each differs from the one before.
abbrev pub Changes : List (Text × ℕ) → Type 0
Changes [] = Unit
Changes ((x, t) ∷ []) = is_empty x ≡ false
Changes ((x, t) ∷ (y, u) ∷ rest) =
    (is_empty x ≡ false) × (text_eq x y ≡ false) × Changes ((y, u) ∷ rest)

abbrev IsLast : Text → List (Text × ℕ) → Type 0
IsLast sent [] = is_empty sent ≡ true
IsLast sent ((x, t) ∷ rest) = x ≡ sent

-- A reporter that loses nothing: a state that is still to be sent has a timer.
abbrev pub Keeps : Reporter → Type 0
Keeps r = Changes r.log × IsLast r.sent r.log × ((is_news r ≡ true) → (r.pending ≡ true))

sent_Changes :
    (x sent : Text) (now : ℕ) (log : List (Text × ℕ))
    → not (text_eq x sent) && not (is_empty x) ≡ true
    → Changes log
    → IsLast sent log
    → Changes ((x, now) ∷ log)
sent_Changes x sent now [] news c l = ground (arith, news)
sent_Changes x sent now ((y, t) ∷ rest) news c l =
    (ground (arith, news), rw l ground (arith, news), c)

send_locked-Keeps :
    (now : ℕ) (r : Reporter)
    → is_news r ≡ true
    → Changes r.log
    → IsLast r.sent r.log
    → Keeps (send_locked now r)
send_locked-Keeps now r news c l =
    let same = text_eq_refl r.current in
    (sent_Changes r.current r.sent now r.log news c l, refl, λ h. absurd (ground (arith, h, same)))

sent_is_old : (now : ℕ) (r : Reporter) → is_news (send_locked now r) ≡ false
sent_is_old now r = let same = text_eq_refl r.current in ground (arith, same)

apply-Keeps :
    (p : Protocol) (now : ℕ) (event : Text) (r : Reporter) → Keeps r → Keeps (apply p now event r)
unfolding apply
apply-Keeps p now event r0 h =
    let r = record r0 { current = p.next_state event r0.current } in
    if_ind Keeps (not (is_news r)) (λ old. (h.0, h.1, λ news. absurd (ground (arith, old, news))))
      (λ news.
        if_ind Keeps (is_due r.interval now r.last_sent)
          (λ _. send_locked-Keeps now r (ground (arith, news)) h.0 h.1)
          (λ _. (h.0, h.1, λ _. refl)))

-- A reporter that has sent its state and keeps nothing back.
abbrev pub IsSettled : Reporter → Type 0
IsSettled r = Keeps r × (is_news r ≡ false) × (r.pending ≡ false)

flush-IsSettled : (now : ℕ) (r : Reporter) → Keeps r → IsSettled (flush now r)
unfolding flush
flush-IsSettled now r0 h =
    let r = record r0 { pending = false } in
    if_ind IsSettled (is_news r)
      (λ news. (send_locked-Keeps now r news h.0 h.1, sent_is_old now r, refl))
      (λ old. ((h.0, h.1, λ news. absurd (ground (arith, old, news))), old, refl))

-- The newest of the states that were sent.
abbrev pub SentLast : Text → List (Text × ℕ) → Type 0
SentLast state [] = ⊥
SentLast state ((x, t) ∷ rest) = x ≡ state

sent_last :
    (state : Text) (log : List (Text × ℕ))
    → IsLast state log
    → SentLast state log ⊎ (is_empty state ≡ true)
sent_last state [] last = inr last
sent_last state ((x, t) ∷ rest) last = inl last

old_news :
    (r : Reporter)
    → is_news r ≡ false
    → IsLast r.sent r.log
    → SentLast r.current r.log ⊎ (is_empty r.current ≡ true)
old_news r old last = elim (Bool-cases (text_eq r.current r.sent)) [
  | inl same ↦
      sent_last r.current r.log
        (subst (λ s. IsLast s r.log) (sym (eq_of_text_eq r.current r.sent same)) last)
  | inr other ↦ inr (ground (arith, old, other))
]

flush-current : (now : ℕ) (r : Reporter) → (flush now r).current ≡ r.current
unfolding flush
flush-current now r0 =
    if_ind (λ (r : Reporter). r.current ≡ r0.current) (is_news (record r0 { pending = false }))
      (λ _. refl) (λ _. refl)

-- What happens to a reporter: an event of the agent, or the end of its timer.
pub data Happening : Type 0 where
  told : ℕ → Text → Happening
  fired : ℕ → Happening

module _ (p : Protocol) where
  abbrev pub happen : Happening → Reporter → Reporter
  happen (told now event) r = apply p now event r
  happen (fired now) r = flush now r

  abbrev pub happen_all : List Happening → Reporter → Reporter
  happen_all [] r = r
  happen_all (x ∷ xs) r = happen_all xs (happen x r)

  happen-Keeps : (x : Happening) (r : Reporter) → Keeps r → Keeps (happen x r)
  happen-Keeps (told now event) r h = apply-Keeps p now event r h
  happen-Keeps (fired now) r h = (flush-IsSettled now r h).0

  happen_all-Keeps : (xs : List Happening) (r : Reporter) → Keeps r → Keeps (happen_all xs r)
  happen_all-Keeps [] r h = h
  happen_all-Keeps (x ∷ xs) r h = happen_all-Keeps xs (happen x r) (happen-Keeps x r h)

  -- Whatever the agent does and whenever its timer ends, no state is sent twice in a row and none
  -- is empty, a state that is held back has a timer, and once the reporter is closed the state that
  -- the agent came to is the newest of the log of sent states, unless it is empty.
  pub reporter-Keeps :
      (interval now : ℕ) (xs : List Happening)
      → let r = happen_all xs (new_reporter interval) in
        let r' = close now r in
        Keeps r
        × Changes r'.log
        × (r'.pending ≡ false)
        × (r'.current ≡ r.current)
        × (SentLast r.current r'.log ⊎ (is_empty r.current ≡ true))
  unfolding close flush
  reporter-Keeps interval now xs =
      let r = happen_all xs (new_reporter interval) in
      let k =
        happen_all-Keeps xs (new_reporter interval) (tt, refl, λ h. absurd (ground (arith, h))) in
      let (keeps, old, stopped) = flush-IsSettled now r k in
      let same = flush-current now (record r { pending = false }) in
      (
        k,
        keeps.0,
        stopped,
        same,
        subst (λ state. SentLast state (close now r).log ⊎ (is_empty state ≡ true)) same
            (old_news (close now r) old keeps.1),
      )
