-- ===== src/Attempts/History.antt =====
-- The attempts that a run leaves: how many, their numbers, and what was retried.
use trilha_runner.Prelude.{
  append_nil, ℕ, suc, ◌+◌, ◌≤◌, ◌<◌, ◌≡◌, inl, inr, refl, ap, sym, subst, ◌∙◌, not, ◌&&◌, List, [],
  ◌∷◌, ◌++◌, All, is_some, arith, if_ind, length, length-append,
}
use trilha_runner.Retry.{environment, missing_tool}
use trilha_runner.Attempts.State.{
  Attempt, World, Config, Run, Stop, Step, done, again, failed, entry, fail, move,
}
use trilha_runner.Attempts.Ending.{fail_environment}
use trilha_runner.Attempts.Step.{attempt_step}
use trilha_runner.Attempts.Loop.{Tools, run, preflight, ended}
use trilha_runner.Attempts.Rule.{Holds, all_rounds}
use trilha_runner.Attempts.Rounds.{IsRetried, EndsAt, plus, Adds, attempt_step-Adds}

-- Attempts numbered from `n` on, all of them tried again.
abbrev pub Retried : ℕ → List Attempt → Type 0
Retried n [] = Unit
Retried n (a ∷ rest) = IsRetried n a × Retried (n + 1) rest

Retried-append :
    (n : ℕ) (xs : List Attempt) (a : Attempt)
    → Retried n xs
    → IsRetried (n + length xs) a
    → Retried n (xs ++ (a ∷ []))
Retried-append n [] a h k = (let e : n + 0 ≡ n = omega arith in rw e at k, tt)
Retried-append n (x ∷ xs) a h k = (
  h.0,
  Retried-append (n + 1) xs a h.1
      (let e : n + 1 + length xs ≡ n + suc (length xs) = omega arith in rw e k),
)

module _ (w : World) (c : Config) where
  -- The attempts at the end of a run: those that were tried again, then at most one more.
  pub record Story (s : Run) : Type 0 where
    pub tried : List Attempt
    pub last : List Attempt
    pub split : s.attempts ≡ tried ++ last
    pub retried : Retried 1 tried
    pub one : length last ≤ 1
    pub numbered : All (λ a. a.number ≡ length tried + 1) last
    pub within : length s.attempts ≤ c.max_attempts

  abbrev Before : ℕ → Run → Type 0
  Before n s = Retried 1 s.attempts × (length s.attempts + 1 ≡ n)

  ends_same :
      (n : ℕ) (old : List Attempt) (s : Run)
      → n ≤ c.max_attempts
      → Retried 1 old
      → length old + 1 ≡ n
      → s.attempts ≡ old
      → Story s
  ends_same n old s within r e same = record {
    tried = old;
    last = [];
    split = same ∙ sym (append_nil old);
    retried = r;
    one = omega arith;
    numbered = tt;
    within = let size : length s.attempts ≡ length old = ap length same in omega (arith, size);
  }

  ends_more :
      (n : ℕ) (old : List Attempt) (a : Attempt) (s : Run)
      → n ≤ c.max_attempts
      → Retried 1 old
      → length old + 1 ≡ n
      → a.number ≡ n
      → s.attempts ≡ plus w c n old a
      → Story s
  ends_more n old a s within r e num more = record {
    tried = old;
    last = a ∷ [];
    split = more;
    retried = r;
    one = omega arith;
    numbered = (num ∙ sym e, tt);
    within = let size = ap length more ∙ length-append old (a ∷ []) in omega (arith, size);
  }

  ends_Story :
      (n : ℕ) (old : List Attempt) (r : Step)
      → n ≤ c.max_attempts
      → Retried 1 old
      → length old + 1 ≡ n
      → Adds w c n old r
      → Holds (λ s'. (n < c.max_attempts) × Before (n + 1) s') (λ s' x. Story s') r
  ends_Story n old (done s x) within h e (inl same) = ends_same n old s within h e same
  ends_Story n old (again s) within h e (inl no_) = absurd no_
  ends_Story n old (done s x) within h e (inr (a, num, inl more)) =
      ends_more n old a s within h e num more
  ends_Story n old (again s) within h e (inr (a, num, inl no_)) = absurd no_
  ends_Story n old (done s x) within h e (inr (a, num, inr (tried, no_))) = absurd no_
  ends_Story n old (again s) within h e (inr (a, num, inr (tried, goes))) =
      let size = ap length goes.1 ∙ length-append old (a ∷ []) in
      let number : n ≡ 1 + length old = omega arith in
      (
        goes.0,
        (
          subst (Retried 1) (sym goes.1)
              (Retried-append 1 old a h (subst (λ k. IsRetried k a) number tried)),
          omega (arith, size),
        ),
      )

  fail_environment-EndsAt :
      (s : Run)
      → EndsAt w c 1
          (plus w c 1 s.attempts (entry 1 failed environment missing_tool))
          (fail_environment w c 1 s)
  unfolding fail_environment fail move
  fail_environment-EndsAt s = ground arith

  -- However a run ends that is given an attempt or more and has made none, its attempts are numbered from 1 on without a gap, no more than the most
  -- that were allowed, and each but the last is marked recovered, after a passing failure of the
  -- provider or checks that failed: no other failure is ever followed by an attempt.
  pub run-Story :
      (t : Tools) (s : Run) → 1 ≤ c.max_attempts → s.attempts ≡ [] → Story (run w c t s).0
  unfolding run
  run-Story t s some_ none_ =
      let size : length s.attempts ≡ 0 = ap length none_ in
      let nothing : Retried 1 s.attempts = subst (Retried 1) (sym none_) tt in
      if_ind (λ (r : Run × Stop). Story r.0) (not c.read_only && is_some (preflight t c.checks))
        (λ _.
          ended-Story (fail_environment w c 1 s)
            (ends_Story 1 s.attempts (fail_environment w c 1 s) some_ nothing (omega (arith, size))
              (inr
                (entry 1 failed environment missing_tool, refl, inl (fail_environment-EndsAt s))))
            (fail_environment-EndsAt s))
        (λ _.
          all_rounds w c Before (λ s' x. Story s')
            (λ n s' within h.
              ends_Story n s'.attempts (attempt_step w c n s') within h.0 h.1
                (attempt_step-Adds w c n within s'))
            s some_ (nothing, omega (arith, size)))
    where
      ended-Story :
          (r : Step)
          → Holds (λ s'. (1 < c.max_attempts) × Before (1 + 1) s') (λ s' x. Story s') r
          → EndsAt w c 1 (plus w c 1 s.attempts (entry 1 failed environment missing_tool)) r
          → Story (ended w c r).0
      ended-Story (done s' x) h e = h
      ended-Story (again s') h e = absurd e
