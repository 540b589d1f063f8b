-- ===== src/Worker/Outbox/Answers.antt =====
-- What an answer of the control plane means for a result, in cmd/trilha-runner/outbox.go.
use trilha_runner.Prelude.{◌<◌, ◌↔◌, ◌≤◌, ◌≡◌, ◌⊎◌, none, some, arith}
use trilha_runner.Worker.Outbox.{
  Answer, taken, refused, lost, is_retryable, Fate, cleared, set_aside, interrupted, unsettled,
  settle,
}

-- The control plane has the result: 2xx, or 409 for one that it already holds.
abbrev pub Clears : Answer → Type 0
Clears taken = Unit
Clears (refused code) = code ≡ 409
Clears lost = ⊥

-- An answer that may be another one later: none at all, a status from 500, 408 or 429.
abbrev pub MayChange : Answer → Type 0
MayChange taken = ⊥
MayChange (refused code) = (500 ≤ code) ⊎ (code ≡ 408) ⊎ (code ≡ 429)
MayChange lost = Unit

-- Every other status.
abbrev pub Refuses : Answer → Type 0
Refuses taken = ⊥
Refuses (refused code) = (code < 500) × ¬ (code ≡ 408) × ¬ (code ≡ 409) × ¬ (code ≡ 429)
Refuses lost = ⊥

abbrev pub Settles : Fate → Answer → Type 0
Settles cleared a = Clears a
Settles set_aside a = Refuses a
Settles interrupted a = ⊥
Settles unsettled a = ⊥

pub settle-Settles : (a : Answer) (f : Fate) → (settle a ≡ some f) ↔ Settles f a
unfolding settle is_retryable
settle-Settles taken cleared = (λ h. ground (arith, h), λ h. ground (arith, h))
settle-Settles taken set_aside = (λ h. ground (arith, h), λ h. ground (arith, h))
settle-Settles taken interrupted = (λ h. ground (arith, h), λ h. ground (arith, h))
settle-Settles taken unsettled = (λ h. ground (arith, h), λ h. ground (arith, h))
settle-Settles lost cleared = (λ h. ground (arith, h), λ h. ground (arith, h))
settle-Settles lost set_aside = (λ h. ground (arith, h), λ h. ground (arith, h))
settle-Settles lost interrupted = (λ h. ground (arith, h), λ h. ground (arith, h))
settle-Settles lost unsettled = (λ h. ground (arith, h), λ h. ground (arith, h))
settle-Settles (refused code) cleared = (λ h. ground (arith, h), λ h. ground (arith, h))
settle-Settles (refused code) set_aside = (λ h. ground (arith, h), λ h. ground (arith, h))
settle-Settles (refused code) interrupted = (λ h. ground (arith, h), λ h. ground (arith, h))
settle-Settles (refused code) unsettled = (λ h. ground (arith, h), λ h. ground (arith, h))

pub settle-MayChange : (a : Answer) → (settle a ≡ none) ↔ MayChange a
unfolding settle is_retryable
settle-MayChange taken = (λ h. ground (arith, h), λ h. ground (arith, h))
settle-MayChange (refused code) = (λ h. ground (arith, h), λ h. ground (arith, h))
settle-MayChange lost = (λ h. ground (arith, h), λ h. ground (arith, h))
