-- ===== src/Worker/Handed.antt =====
-- Which claims of runRemoteWorker in cmd/trilha-runner/worker.go handed work out.
use trilha_runner.Prelude.{
  ℕ, ◌+◌, ltb, ◌==◌, false, ◌≡◌, refl, ap, ◌∙◌, subst, inl, inr, Bool-cases, arith, if◌then◌else◌,
}
use trilha_runner.Worker.{Claim, claimed, nothing_ready, claim_error, Fleet, State}
use trilha_runner.Worker.Counts.{count}

-- How often a claim is in progress or posted: once when it was asked for and handed work out.
abbrev pub handed : ℕ → Claim → ℕ → ℕ
handed asked claimed x = if ltb x asked then 1 else 0
handed asked nothing_ready x = 0
handed asked claim_error x = 0

abbrev pub work_in : Claim → ℕ
work_in claimed = 1
work_in nothing_ready = 0
work_in claim_error = 0

-- One more claim, which `c'` answers.
handed-step :
    (asked x : ℕ) (c c' : Claim)
    → ((x ≡ asked) → c ≡ c')
    → handed (asked + 1) c x ≡ handed asked c x + (if x == asked then work_in c' else 0)
handed-step asked x c c' same = elim (Bool-cases (x == asked)) [
  | inl here ↦
      let e : x ≡ asked = ground (arith, here) in
      subst (λ d. handed (asked + 1) c x ≡ handed asked c x + (if x == asked then work_in d else 0))
        (same e) (at_once c)
  | inr other ↦ passed c other
]
  where
    at_once :
        (c : Claim)
        → handed (asked + 1) c x ≡ handed asked c x + (if x == asked then work_in c else 0)
    at_once claimed = ground arith
    at_once nothing_ready = ground arith
    at_once claim_error = ground arith

    passed :
        (c : Claim)
        → (x == asked) ≡ false
        → handed (asked + 1) c x ≡ handed asked c x + (if x == asked then work_in c' else 0)
    passed claimed other = ground (arith, other)
    passed nothing_ready other = ground (arith, other)
    passed claim_error other = ground (arith, other)

pub none_yet : (x : ℕ) (c : Claim) → 0 ≡ handed 0 c x
none_yet x claimed = ground arith
none_yet x nothing_ready = refl
none_yet x claim_error = refl

module _ (w : Fleet) where
  pub handed-next :
      (asked x : ℕ) (c : Claim)
      → (w.claim asked ≡ c)
      → handed (asked + 1) (w.claim x) x
        ≡ handed asked (w.claim x) x + (if x == asked then work_in c else 0)
  handed-next asked x c answer =
      handed-step asked x (w.claim x) c (λ e. ap (λ n. w.claim n) e ∙ answer)

  -- Every claim that handed work out is running or has its result handed to deliver, and is so
  -- once; no other claim is.
  abbrev pub IsPlaced : State → Type 0
  IsPlaced s = (x : ℕ) → count x s.active + count x s.posted ≡ handed s.asked (w.claim x) x
