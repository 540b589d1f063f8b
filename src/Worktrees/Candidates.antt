-- ===== src/Worktrees/Candidates.antt =====
-- The search of openVariant in worktree/target.go for a branch that is free or its own.
use trilha_runner.Prelude.{
  ℕ, zero, suc, ◌+◌, ◌≤◌, ◌<◌, ◌≡◌, ◌⊎◌, inl, inr, refl, Bool, true, false, ◌&&◌, not, [], none,
  some, Text, text_eq, if_ind, arith, subst, Bool-cases,
}
use trilha_runner.Worktrees.{
  Worktree, Host, Opened, all_taken, add_tree, candidate, proven_branch, create, try_variants,
  open_variant, git_ends, opened, before, fetched, max_variant_suffix,
}

le_cases : (n k : ℕ) → n ≤ k → (n ≡ k) ⊎ (n + 1 ≤ k)
le_cases n k h = ground arith

module _ (h : Host) (w : Worktree) where
  -- A name that no branch has, here or on origin.
  abbrev pub is_free : Text → Bool
  is_free name = not (h.is_local name) && not (h.is_remote name)

  -- A branch here that the run's proof file names.
  abbrev pub is_ours : Text → Bool
  is_ours name = h.is_local name && text_eq (proven_branch h w.key) name

  abbrev pub IsTaken : ℕ → Type 0
  IsTaken n = (is_free (candidate w.branch n) ≡ false) × (is_ours (candidate w.branch n) ≡ false)

  -- What is done with the n-th candidate: made from HEAD, or checked out as it is.
  abbrev pub Claims : ℕ → Opened → Type 0
  Claims n o =
      ((is_free (candidate w.branch n) ≡ true)
        × (o ≡ create h (record w { branch = candidate w.branch n })))
      ⊎ ((is_ours (candidate w.branch n) ≡ true)
          × (o
              ≡ git_ends h (record w { branch = candidate w.branch n })
                  (add_tree w.path (candidate w.branch n))))

  -- The first candidate from `start` on, of `left`, that is free or the run's own.
  pub record Found (start left : ℕ) (o : Opened) : Type 0 where
    pub at : ℕ
    pub from : start ≤ at
    pub within : at < start + left
    pub before_taken : (k : ℕ) → start ≤ k → k < at → IsTaken k
    pub claims : Claims at o

  pub record NoneLeft (start left : ℕ) (o : Opened) : Type 0 where
    pub every_taken : (k : ℕ) → start ≤ k → k < start + left → IsTaken k
    pub refused : o ≡ opened h w (some all_taken) []

  abbrev pub Searched : ℕ → ℕ → Opened → Type 0
  Searched start left o = Found start left o ⊎ NoneLeft start left o

  here_Found : (n left : ℕ) (o : Opened) → Claims n o → Searched n (suc left) o
  here_Found n left o c = inl (record {
    at = n;
    from = omega arith;
    within = omega arith;
    before_taken = λ k above below. absurd (omega arith);
    claims = c;
  })

  one_more :
      (start left : ℕ) (o : Opened)
      → IsTaken start
      → Searched (start + 1) left o
      → Searched start (suc left) o
  one_more start left o taken (inl f) = inl (record {
    at = f.at;
    from = let e = f.from in omega arith;
    within = let e = f.within in omega arith;
    before_taken = λ k above below. elim (le_cases start k above) [
      | inl e ↦ subst IsTaken e taken
      | inr more ↦ f.before_taken k more below
    ];
    claims = f.claims;
  })
  one_more start left o taken (inr r) = inr (record {
    every_taken = λ k above below. elim (le_cases start k above) [
      | inl e ↦ subst IsTaken e taken
      | inr more ↦ r.every_taken k more (omega arith)
    ];
    refused = r.refused;
  })

  try_variants-Searched : (left n : ℕ) → Searched n left (try_variants h w left n)
  unfolding try_variants
  try_variants-Searched zero n =
      inr (record { every_taken = λ k above below. absurd (omega arith); refused = refl })
  try_variants-Searched (suc left) n =
      let name = candidate w.branch n in
      let w' = record w { branch = name } in
      let rest = try_variants h w left (n + 1) in
      if_ind (Searched n (suc left)) (is_free name)
        (λ free. here_Found n left (create h w') (inl (free, refl)))
        (λ busy.
          if_ind (Searched n (suc left)) (is_ours name)
            (λ ours. here_Found n left (git_ends h w' (add_tree w.path name)) (inr (ours, refl)))
            (λ foreign. one_more n left rest (busy, foreign) (try_variants-Searched left (n + 1))))

  -- A variant's worktree that is there is taken as it is, with no command; otherwise, after a
  -- fetch, the run takes the first of the twenty names BRANCH, BRANCH-2, … BRANCH-20 that is
  -- either the name of no branch here or on origin, and then makes the branch from HEAD, or the
  -- branch here that its proof file names, and then checks it out; when every name is taken it
  -- is an error and no command.
  pub open_variant-Searched :
      ((h.has_tree w.path ≡ true)
        × ((open_variant h w).commands ≡ [])
        × ((open_variant h w).error ≡ none))
      ⊎ ((h.has_tree w.path ≡ false)
          × ((o : Opened) × (open_variant h w ≡ before h (fetched h w.branch) o)
              × Searched 1 max_variant_suffix o))
  unfolding open_variant
  open_variant-Searched =
      let searched = try_variants h w max_variant_suffix 1 in
      elim (Bool-cases (h.has_tree w.path)) [
        | inl yes_ ↦ inl (yes_, rw yes_ refl, rw yes_ refl)
        | inr no_ ↦ inr (no_, (searched, rw no_ refl, try_variants-Searched max_variant_suffix 1))
      ]
