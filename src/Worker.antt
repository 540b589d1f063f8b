-- ===== src/Worker.antt =====
-- cmd/trilha-runner/worker.go: the loop of a worker that takes its work from a control plane. The
-- heartbeat "stopping" of a worker that is shut down, and those of keepAlive, are left out.
pub mod Outbox
pub mod Items
pub mod Counts
pub mod Handed
pub mod Slots
mod Sendings
mod Tests
pub mod Uploads
pub mod Sending
use trilha_runner.Prelude.{
  ℕ, zero, suc, ◌+◌, ◌-◌, ◌%◌, ltb, ◌==◌, Bool, true, false, ◌&&◌, ◌||◌, not, List, [], ◌∷◌, ◌++◌,
  Option, none, some, is_some, length, take, drop, if◌then◌else◌,
}

-- Work is named by the number of the claim that handed it out.
pub data Claim : Type 0 where
  claimed : Claim
  nothing_ready : Claim  -- queue.ErrEmpty
  claim_error : Claim

pub data Deployment : Type 0 where
  deploys : Bool → Deployment  -- and whether its result was taken
  no_deployment : Deployment
  deployment_error : Deployment

-- What the worker's select sees: the end of its context, the end of a run, or its timer.
pub data Event : Type 0 where
  ended : Event
  finishes : ℕ → Event
  tick : Event

pub data Beat : Type 0 where
  idle deploying : Beat
  busy : ℕ → ℕ → Beat  -- running n/N

pub data Stop : Type 0 where
  stopped failed : Stop

-- What the control plane, the runs and the clock answer, by the number of the request or round.
pub record Fleet : Type 0 where
  pub first_beat : Bool
  pub flushed : Bool  -- the flush of the outbox was not stopped
  pub claim : ℕ → Claim
  pub ended_claiming : ℕ → Bool  -- the context had ended when a claim failed
  pub deployment : ℕ → Deployment
  pub event : ℕ → Event
  pub delivered : ℕ → Bool  -- deliver of the result at a round was not stopped

pub record Options : Type 0 where
  pub once : Bool
  pub wanted_capacity : ℕ  -- a negative one as 0
  pub delivery_enabled : Bool

-- `active` are the runs in progress, `posted` those whose result was handed to deliver.
pub record State : Type 0 where
  pub running : ℕ
  pub active : List ℕ
  pub posted : List ℕ
  pub asked : ℕ
  pub beats : List Beat
  pub round : ℕ
  pub has_claimed : Bool
  pub stop : Option Stop

abbrev pub start : State
start = record {
  running = 0;
  active = [];
  posted = [];
  asked = 0;
  beats = [];
  round = 0;
  has_claimed = false;
  stop = none;
}

abbrev pub beat : State → Beat → State
beat s b = record s { beats = s.beats ++ (b ∷ []) }

abbrev pub halt : State → Stop → State
halt s x = record s { stop = some x }

module _ (w : Fleet) (o : Options) where
  unfoldable pub capacity : ℕ
  capacity = if o.once || o.wanted_capacity == 0 then 1 else o.wanted_capacity

  abbrev pub take_item : State → State
  take_item s = record s {
    running = s.running + 1;
    active = s.active ++ (s.asked ∷ []);
    asked = s.asked + 1;
    beats = s.beats ++ (busy (s.running + 1) capacity ∷ []);
    has_claimed = true;
  }

  -- The inner loop: claims until the worker is full or nothing is ready.
  unfoldable pub claim_all : ℕ → State → State
  claim_all zero s = s
  claim_all (suc left) s =
      let missed = record s { asked = s.asked + 1 } in
      let rest = claim_all left (take_item s) in
      if not (ltb s.running capacity) then s else elim (w.claim s.asked) [
        | nothing_ready ↦ missed
        | claim_error ↦ halt missed (if w.ended_claiming s.asked then stopped else failed)
        | claimed ↦ if o.once then take_item s else rest
      ]

  abbrev pub sleep : State → Event → State
  sleep s ended = halt s stopped
  sleep s _ = s

  -- Nothing runs and nothing was claimed.
  abbrev pub rest_or : State → State
  rest_or s = if o.once then halt s stopped else sleep s (w.event s.round)

  abbrev pub deploy : State → Deployment → State
  deploy s no_deployment = rest_or s
  deploy s deployment_error = halt s failed
  deploy s (deploys taken) =
      let s1 = beat s deploying in
      let s2 = beat s1 idle in
      if not taken then halt s1 failed else if o.once then halt s2 stopped else s2

  unfoldable pub idle_round : State → State
  idle_round s = if o.delivery_enabled then deploy s (w.deployment s.round) else rest_or s

  abbrev pub status_beat : ℕ → Beat
  status_beat n = if ltb 0 n then busy n capacity else idle

  -- The end of the k-th of the runs, which goes round them.
  abbrev pub finish : State → ℕ → State
  finish s k =
      let at = k % length s.active in
      let s1 = record s {
        running = s.running - 1;
        active = take at s.active ++ drop (at + 1) s.active;
        posted = s.posted ++ take 1 (drop at s.active);
      } in
      let s2 = beat s1 (status_beat s1.running) in
      if not (w.delivered s.round) then halt s1 stopped else if o.once then halt s2 stopped else s2

  abbrev pub select : State → Event → State
  select s ended = halt s stopped
  select s (finishes k) = finish s k
  select s tick = s

  abbrev pub after_claims : State → State
  after_claims s =
      if is_some s.stop
      then s
      else if s.running == 0 && not s.has_claimed
      then idle_round s
      else select s (w.event s.round)

  -- One pass of the outer loop.
  unfoldable pub pass : State → State
  pass s =
      let s1 = after_claims (claim_all capacity (record s { has_claimed = false })) in
      record s1 { round = s1.round + 1 }

  -- So many passes, fewer where the worker stops.
  unfoldable pub passes : ℕ → State → State
  passes zero s = s
  passes (suc left) s = let rest = passes left (pass s) in if is_some s.stop then s else rest

  -- runRemoteWorker, seen after `left` passes.
  unfoldable pub work : ℕ → State
  work left =
      if not w.first_beat
      then halt (beat start idle) failed
      else if not w.flushed
      then halt (beat start idle) stopped
      else passes left (beat start idle)
