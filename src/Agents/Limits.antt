-- ===== src/Agents/Limits.antt =====
-- What an agent's messages leave in its session.
use trilha_runner.Prelude.{
  ℕ, zero, suc, ◌-◌, ◌≤◌, ◌≡◌, ◌⊎◌, inl, inr, refl, Bool, true, false, ◌&&◌, not, List, [], ◌∷◌,
  ◌++◌, Option, none, some, Text, codes, text_eq, is_empty, leb, if_ind, if◌then◌else◌, arith, All,
  All-append, length, drop, length-drop, trim_space,
}
use trilha_runner.Agents.{
  Pattern, Protocol, Message, event, ask, attention, note, overview, report, Attention, Session,
  scan, notice, clean, raise, record_question, last_notes, handle_type, handle, apply,
}

id_fits : (id : Text) → not (is_empty id) && leb (length id) 128 ≡ true → length id ≤ 128
id_fits id good = ground (arith, good)

kept_reason : (a b : Bool) → a && not b ≡ false → (a ≡ false) ⊎ (b ≡ true)
kept_reason false b h = inl refl
kept_reason true true h = inr refl
kept_reason true false h = absurd (ground (arith, h))

-- `size` is the measure of the protocol's limits, and `cuts` what execution.Truncate promises.
module _ (p : Protocol) (size : Text → ℕ) (nothing : size [] ≡ 0)
    (cuts : (t : Text) (n : ℕ) → size (p.truncate t n) ≤ n) (patterns : List Pattern)
    (secrets : List Text) where
  abbrev pub IsShort : ℕ → Option Text → Type 0
  IsShort n none = Unit
  IsShort n (some t) = size t ≤ n

  -- Nothing in a session that leaves the machine is longer than the protocol's limit, no more
  -- notes are kept than it takes, and every attention has a reason or clears one.
  abbrev pub Bounded : Session → Type 0
  Bounded s =
      IsShort p.max_question s.question
      × All (λ n. size n ≤ p.max_note) s.notes
      × (length s.notes ≤ p.max_notes)
      × (size s.overview ≤ p.max_overview)
      × (length s.session_id ≤ 128)
      × All
          (λ a.
            (size a.reason ≤ p.max_reason) × ((is_empty a.reason ≡ false) ⊎ (a.is_clear ≡ true)))
          s.raised

  drop-All : (P : Text → Type 0) (n : ℕ) (xs : List Text) → All P xs → All P (drop n xs)
  drop-All P zero xs h = h
  drop-All P (suc n) [] h = tt
  drop-All P (suc n) (x ∷ xs) h = drop-All P n xs h.1

  empty_size : (t : Text) → is_empty t ≡ true → (n : ℕ) → size t ≤ n
  empty_size [] h n = omega (arith, nothing)
  empty_size (c ∷ t) h n = absurd (ground (arith, h))

  raise-Bounded : (a : Attention) (s : Session) → Bounded s → Bounded (raise p patterns secrets a s)
  unfolding raise
  raise-Bounded a s h =
      let cleaned = p.truncate (clean p patterns secrets a.reason) p.max_reason in
      let reason = if is_empty a.reason then a.reason else cleaned in
      let short : size reason ≤ p.max_reason =
        if_ind (λ t. size t ≤ p.max_reason) (is_empty a.reason)
          (λ e. empty_size a.reason e p.max_reason)
          (λ _. cuts (clean p patterns secrets a.reason) p.max_reason) in
      if_ind Bounded (is_empty reason && not a.is_clear) (λ _. h)
        (λ kept. (
          h.0,
          h.1,
          h.2,
          h.3,
          h.4,
          All-append
              (λ (x : Attention).
                (size x.reason ≤ p.max_reason)
                × ((is_empty x.reason ≡ false) ⊎ (x.is_clear ≡ true)))
              s.raised (record a { reason = reason } ∷ []) h.5
              ((short, kept_reason (is_empty reason) a.is_clear kept), tt),
        ))

  record_question-Bounded :
      (t : Text) (s : Session) → Bounded s → Bounded (record_question p patterns secrets t s)
  unfolding record_question
  record_question-Bounded t s h =
      let (cleaned, found) = scan patterns secrets t in
      (cuts (if found then notice else cleaned) p.max_question, h.1, h.2, h.3, h.4, h.5)

  note-Bounded :
      (t : Text) (s : Session)
      → Bounded s
      → Bounded (record s {
        notes = last_notes p patterns secrets (s.notes ++ (p.truncate t p.max_note ∷ []));
      })
  note-Bounded t s h =
      let more = s.notes ++ (p.truncate t p.max_note ∷ []) in
      (
        h.0,
        drop-All (λ n. size n ≤ p.max_note) (length more - p.max_notes) more
            (All-append (λ n. size n ≤ p.max_note) s.notes (p.truncate t p.max_note ∷ []) h.1
              (cuts t p.max_note, tt)),
        omega (arith, length-drop (length more - p.max_notes) more),
        h.3,
        h.4,
        h.5,
      )

  handle_type-Bounded :
      (now : ℕ) (m : Message) (s : Session)
      → Bounded s
      → Bounded (handle_type p patterns secrets now m s)
  unfolding handle_type
  handle_type-Bounded now (event e text) s h =
      let s1 = record s { state = apply p now e s.state } in
      let reason = if is_empty text then codes "provider error" else text in
      if_ind Bounded (text_eq e p.stop_failure)
        (λ _. raise-Bounded (record { reason = reason; is_clear = false }) s1 h) (λ _. h)
  handle_type-Bounded now (ask words) s h =
      if_ind Bounded (is_empty (trim_space words)) (λ _. h)
        (λ _. record_question-Bounded (trim_space words) s h)
  handle_type-Bounded now (attention text clear) s h =
      raise-Bounded (record { reason = trim_space text; is_clear = clear }) s h
  handle_type-Bounded now (note words) s h =
      let content = clean p patterns secrets (trim_space words) in
      if_ind Bounded (is_empty content) (λ _. h) (λ _. note-Bounded content s h)
  handle_type-Bounded now (overview words) s h =
      (h.0, h.1, h.2, cuts (clean p patterns secrets (trim_space words)) p.max_overview, h.4, h.5)
  handle_type-Bounded now report s h = h

  -- Where a cut text keeps to its limit, a message keeps the session within the protocol's limits, the number of notes and the length
  -- of the session id among them.
  pub handle-Bounded :
      (now : ℕ) (id : Text) (m : Message) (s : Session)
      → Bounded s
      → Bounded (handle p patterns secrets now id m s)
  unfolding handle
  handle-Bounded now id m s h =
      let named = if not (is_empty id) && leb (length id) 128 then id else s.session_id in
      let short : length named ≤ 128 =
        if_ind (λ (t : Text). length t ≤ 128) (not (is_empty id) && leb (length id) 128)
          (id_fits id) (λ _. h.4) in
      handle_type-Bounded now m (record s { session_id = named }) (h.0, h.1, h.2, h.3, short, h.5)
