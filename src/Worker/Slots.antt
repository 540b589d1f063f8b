-- ===== src/Worker/Slots.antt =====
-- The slots of runRemoteWorker in cmd/trilha-runner/worker.go: how much a worker runs at once, and
-- where the work that it claimed is.
use native.Mathlib.Nat.{mod-lt}
use trilha_runner.Prelude.{
  subst, ℕ, zero, suc, ◌+◌, ◌-◌, ◌%◌, ◌≤◌, ◌<◌, ◌≡◌, ◌⊎◌, inl, inr, refl, true, false, ◌&&◌, not,
  ltb, ◌==◌, [], ◌∷◌, ◌++◌, is_some, length, take, drop, length-append, length-take, length-drop,
  All, All-append, if_ind, arith, if◌then◌else◌,
}
use trilha_runner.Worker.{
  Claim, claimed, nothing_ready, claim_error, Deployment, deploys, no_deployment, deployment_error,
  Event, ended, finishes, tick, Beat, idle, deploying, busy, Fleet, Options, State, Stop, start,
  beat, halt, capacity, take_item, claim_all, sleep, rest_or, deploy, idle_round, finish, select,
  after_claims, pass, passes, work, status_beat,
}
use trilha_runner.Worker.Counts.{count, count-append, count-split}
use trilha_runner.Worker.Handed.{IsPlaced, none_yet, handed-next}

module _ (w : Fleet) (o : Options) where
  -- What a heartbeat may say.
  abbrev pub IsTrue : Beat → Type 0
  IsTrue (busy n m) = (1 ≤ n) × (n ≤ m) × (m ≡ capacity w o)
  IsTrue _ = Unit

  -- The counter of the runs is their number and within the capacity; every claim that handed work
  -- out is in its place; and the heartbeats told no more runs than that.
  abbrev pub Slots : State → Type 0
  Slots s =
      (s.running ≡ length s.active) × (s.running ≤ capacity w o) × IsPlaced w s × All IsTrue s.beats

  beat-Slots : (s : State) (b : Beat) → IsTrue b → Slots s → Slots (beat s b)
  beat-Slots s b t h = (h.0, h.1, h.2, All-append IsTrue s.beats (b ∷ []) h.3 (t, tt))

  take_item-Slots :
      (s : State)
      → s.running < capacity w o
      → w.claim s.asked ≡ claimed
      → Slots s
      → Slots (take_item w o s)
  take_item-Slots s room answer h =
      let n = length-append s.active (s.asked ∷ []) in
      (
        omega (arith, n, h.0),
        omega arith,
        λ x. omega (
          arith,
          h.2 x,
          handed-next w s.asked x claimed answer,
          count-append x s.active (s.asked ∷ []),
        ),
        All-append IsTrue s.beats (busy (s.running + 1) (capacity w o) ∷ []) h.3
            ((omega arith, omega arith, refl), tt),
      )

  missed : State → State
  missed s = record s { asked = s.asked + 1 }

  claim_all-Slots : (left : ℕ) (s : State) → Slots s → Slots (claim_all w o left s)
  unfolding claim_all
  claim_all-Slots zero s h = h
  claim_all-Slots (suc left) s h =
      if_ind Slots (not (ltb s.running (capacity w o))) (λ _. h)
        (λ room.
          answered left s (w.claim s.asked) refl h
            (λ e. take_item-Slots s (ground (arith, room)) e h)
            (claim_all-Slots left (take_item w o s)))
    where
      answered :
          (left : ℕ) (s : State) (c : Claim)
          → (w.claim s.asked ≡ c)
          → Slots s
          → (w.claim s.asked ≡ claimed → Slots (take_item w o s))
          → (Slots (take_item w o s) → Slots (claim_all w o left (take_item w o s)))
          → Slots (elim c [
            | nothing_ready ↦ record s { asked = s.asked + 1 }
            | claim_error ↦
                halt
                  (record s { asked = s.asked + 1 })
                  (if w.ended_claiming s.asked then Stop.stopped else Stop.failed)
            | claimed ↦ if o.once then take_item w o s else claim_all w o left (take_item w o s)
          ])
      answered left s nothing_ready e h one more =
          (h.0, h.1, λ x. ground (arith, h.2 x, handed-next w s.asked x nothing_ready e), h.3)
      answered left s claim_error e h one more =
          (h.0, h.1, λ x. ground (arith, h.2 x, handed-next w s.asked x claim_error e), h.3)
      answered left s claimed e h one more = if_ind Slots o.once (λ _. one e) (λ _. more (one e))

  -- A run leaves its slot, and its result is posted.
  left_slot : State → ℕ → State
  left_slot s at = record s {
    running = s.running - 1;
    active = take at s.active ++ drop (at + 1) s.active;
    posted = s.posted ++ take 1 (drop at s.active);
  }

  left_slot-Slots : (s : State) (at : ℕ) → at < length s.active → Slots s → Slots (left_slot s at)
  unfolding left_slot
  left_slot-Slots s at inside h =
      let kept = length-append (take at s.active) (drop (at + 1) s.active) in
      let gone = length-append s.posted (take 1 (drop at s.active)) in
      let before = length-take at s.active in
      let after = length-drop (at + 1) s.active in
      let one = length-take 1 (drop at s.active) in
      let rest = length-drop at s.active in
      let next : suc at ≡ at + 1 = omega arith in
      let split : (x : ℕ)
          → count x (take at s.active)
              + count x (take 1 (drop at s.active))
              + count x (drop (at + 1) s.active)
            ≡ count x s.active =
        λ x.
          subst
            (λ n.
              count x (take at s.active)
                + count x (take 1 (drop at s.active))
                + count x (drop n s.active)
              ≡ count x s.active)
            next (count-split x at s.active) in
      (
        omega (arith, kept, before, after, inside, h.0),
        omega (arith, h.1),
        λ x. omega (
          arith,
          h.2 x,
          split x,
          count-append x (take at s.active) (drop (at + 1) s.active),
          count-append x s.posted (take 1 (drop at s.active)),
        ),
        h.3,
      )

  status_beat-IsTrue : (n : ℕ) → n ≤ capacity w o → IsTrue (status_beat w o n)
  status_beat-IsTrue n h = if_ind IsTrue (ltb 0 n) (λ some_. (ground arith, h, refl)) (λ _. tt)

  finish-Slots : (s : State) (k : ℕ) → 1 ≤ s.running → Slots s → Slots (finish w o s k)
  unfolding left_slot
  finish-Slots s k some_ h =
      let at = k % length s.active in
      let s1 = left_slot s at in
      let left = left_slot-Slots s at (mod-lt k (omega (arith, h.0))) h in
      let told =
        beat-Slots s1 (status_beat w o s1.running) (status_beat-IsTrue s1.running left.1) left in
      if_ind Slots (not (w.delivered s.round)) (λ _. left)
        (λ _. if_ind Slots o.once (λ _. told) (λ _. told))

  rest_or-Slots : (s : State) → Slots s → Slots (rest_or w o s)
  rest_or-Slots s h = if_ind Slots o.once (λ _. h) (λ _. slept (w.event s.round))
    where
      slept : (e : Event) → Slots (sleep w o s e)
      slept ended = h
      slept (finishes k) = h
      slept tick = h

  deploy-Slots : (s : State) (d : Deployment) → Slots s → Slots (deploy w o s d)
  deploy-Slots s no_deployment h = rest_or-Slots s h
  deploy-Slots s deployment_error h = h
  deploy-Slots s (deploys taken) h =
      let first = beat-Slots s deploying tt h in
      let both = beat-Slots (beat s deploying) idle tt first in
      if_ind Slots (not taken) (λ _. first) (λ _. if_ind Slots o.once (λ _. both) (λ _. both))

  idle_round-Slots : (s : State) → Slots s → Slots (idle_round w o s)
  unfolding idle_round
  idle_round-Slots s h =
      if_ind Slots o.delivery_enabled (λ _. deploy-Slots s (w.deployment s.round) h)
        (λ _. rest_or-Slots s h)

  select-Slots : (s : State) (e : Event) → 1 ≤ s.running → Slots s → Slots (select w o s e)
  select-Slots s ended some_ h = h
  select-Slots s (finishes k) some_ h = finish-Slots s k some_ h
  select-Slots s tick some_ h = h

  -- A pass that claimed has a run.
  HasRun : State → Type 0
  HasRun s = (s.has_claimed ≡ true) → 1 ≤ s.running

  claim_all-HasRun : (left : ℕ) (s : State) → HasRun s → HasRun (claim_all w o left s)
  unfolding claim_all HasRun
  claim_all-HasRun zero s h = h
  claim_all-HasRun (suc left) s h =
      let rest : HasRun (claim_all w o left (take_item w o s)) =
        claim_all-HasRun left (take_item w o s) (λ _. omega arith) in
      ground (arith, h, rest)

  after_claims-Slots : (s : State) → HasRun s → Slots s → Slots (after_claims w o s)
  unfolding HasRun
  after_claims-Slots s one h =
      if_ind Slots (is_some s.stop) (λ _. h)
        (λ _.
          if_ind Slots (s.running == 0 && not s.has_claimed) (λ _. idle_round-Slots s h)
            (λ busy_. select-Slots s (w.event s.round) (ground (arith, one)) h))

  pass-Slots : (s : State) → Slots s → Slots (pass w o s)
  unfolding pass HasRun
  pass-Slots s h =
      let s0 = record s { has_claimed = false } in
      after_claims-Slots (claim_all w o (capacity w o) s0)
        (claim_all-HasRun (capacity w o) s0 (λ e. absurd (ground (arith, e))))
        (claim_all-Slots (capacity w o) s0 h)

  passes-Slots : (left : ℕ) (s : State) → Slots s → Slots (passes w o left s)
  unfolding passes
  passes-Slots zero s h = h
  passes-Slots (suc left) s h =
      if_ind Slots (is_some s.stop) (λ _. h) (λ _. passes-Slots left (pass w o s) (pass-Slots s h))

  -- However long the worker goes on and whatever the control plane and the runs do, its counter
  -- is the number of its runs, never above its capacity; every claim that handed work out is in
  -- progress or has its result handed to deliver, once, and no other is; and every heartbeat "running n/N" has the capacity for N
  -- and an n from 1 to N.
  pub work-Slots : (left : ℕ) → Slots (work w o left)
  unfolding work
  work-Slots left =
      let idle_ : Slots (beat start idle) =
        (refl, omega arith, λ x. none_yet x (w.claim x), (tt, tt)) in
      if_ind Slots (not w.first_beat) (λ _. idle_)
        (λ _.
          if_ind Slots (not w.flushed) (λ _. idle_)
            (λ _. passes-Slots left (beat start idle) idle_))

  -- Why the claiming ends: an error, no room, the one run of --once, or nothing ready at the
  -- last claim.
  abbrev pub HasReason : State → Type 0
  HasReason s =
      (is_some s.stop ≡ true)
      ⊎ (capacity w o ≤ s.running)
      ⊎ ((o.once ≡ true) × (s.has_claimed ≡ true))
      ⊎ ((1 ≤ s.asked) × (w.claim (s.asked - 1) ≡ nothing_ready))

  -- With fuel for every free slot, a worker claims work until there is a reason to stop, and its
  -- fuel is not one.
  pub claim_all-HasReason :
      (left : ℕ) (s : State) → capacity w o ≤ s.running + left → HasReason (claim_all w o left s)
  unfolding claim_all
  claim_all-HasReason zero s h = ground arith
  claim_all-HasReason (suc left) s h =
      if_ind HasReason (not (ltb s.running (capacity w o))) (λ full. ground (arith, full))
        (λ _.
          answered (w.claim s.asked) refl
            (claim_all-HasReason left (take_item w o s) (omega arith)))
    where
      answered :
          (c : Claim)
          → w.claim s.asked ≡ c
          → HasReason (claim_all w o left (take_item w o s))
          → HasReason (elim c [
            | nothing_ready ↦ record s { asked = s.asked + 1 }
            | claim_error ↦
                halt
                  (record s { asked = s.asked + 1 })
                  (if w.ended_claiming s.asked then Stop.stopped else Stop.failed)
            | claimed ↦ if o.once then take_item w o s else claim_all w o left (take_item w o s)
          ])
      answered nothing_ready e more =
          let last : s.asked + 1 - 1 ≡ s.asked = omega arith in
          inr (inr (inr (omega arith, rw last e)))
      answered claim_error e more = inl refl
      answered claimed e more =
          if_ind HasReason o.once (λ once. inr (inr (inl (once, refl)))) (λ _. more)
