-- ===== src/Runs/Starts.antt =====
-- Which tasks a run may start on, and what it starts with.
use trilha_runner.Prelude.{
  ◌≤◌, ◌≡◌, ◌⊎◌, inl, inr, refl, true, false, ◌&&◌, ◌||◌, not, List, [], ◌∷◌, ◌++◌, Option, none,
  some, Text, is_empty, if_ind, arith, subst, sym, ◌∙◌,
}
use trilha_runner.Tasks.{Status, status_eq}
use trilha_runner.Retry.{ErrorCode, no_code, sandbox_required}
use trilha_runner.Runs.{
  Setting, Stage, Begin, Start, refused, failing, begun, read_only, is_review, is_docker, is_valid,
  is_none, is_bad, driver, worktree, sandbox, policy, prepared, begin, open_tree, with_checks,
  started, move_running, loaded, fail, run_from, chosen_box,
}

module _ (s : Setting) where
  -- The checks that foreign code is held to: the task's and those of the default branch.
  abbrev pub AreBased : Option (List Text) → List Text → Type 0
  AreBased none checks = ⊥
  AreBased (some based) checks = checks ≡ s.own_checks ++ based

  -- Foreign code is in Docker, with checks of the default branch, and the credential is in its
  -- environment only for a driver that is not the in-process one.
  abbrev pub IsContained : Begin → Type 0
  IsContained b =
      (is_docker b.box ≡ true)
      × AreBased s.base_checks b.checks
      × ((b.has_credential ≡ true) → s.driver_is_ai ≡ false)

  -- The tasks that a run may take up: a ready one, one that a dead runner left, one that is
  -- answered, and one in review for a fix or a repair.
  abbrev pub MayStart : Status → Type 0
  MayStart at =
      (at ≡ Status.ready)
      ⊎ ((at ≡ Status.running) × (s.has_live_runner ≡ false))
      ⊎ ((at ≡ Status.blocked) × (s.is_continued ≡ true))
      ⊎ ((at ≡ Status.review) × ((is_review s.work.kind ≡ true) ⊎ (s.work.has_comments ≡ true)))

  abbrev pub IsFit : Begin → Type 0
  IsFit b =
      (1 ≤ b.max_attempts)
      × ((s.work.foreign_code ≡ true) → IsContained b)
      × ((is_docker b.box ≡ true) → b.box_is_read_only ≡ read_only s.work)

  -- A run that is handed to the loop is fit for it, and a read-only one moves nothing.
  abbrev pub Begins : Status → Start → Type 0
  Begins at (refused x) = ⊥
  Begins at (failing x stage code) = (read_only s.work ≡ true) → x ≡ at
  Begins at (begun x b) = (x ≡ at) × IsFit b

  begin-IsFit :
      (checks : List Text)
      → ((s.work.foreign_code ≡ true)
          → (is_docker (chosen_box s) ≡ true) × AreBased s.base_checks (s.own_checks ++ checks))
      → IsFit (begin s checks)
  begin-IsFit checks h =
      (ground arith, (λ f. ((h f).0, (h f).1, λ c. ground (arith, c, f))), λ d. ground (arith, d))

  fail-Begins : (at : Status) (stage : Stage) (code : ErrorCode) → Begins at (fail s at stage code)
  fail-Begins at stage code =
      if_ind (Begins at) (read_only s.work) (λ _ _. refl)
        (λ own ro. absurd (ground (arith, own, ro)))

  open_tree-Begins :
      (at : Status) (checks : List Text)
      → ((s.work.foreign_code ≡ true) → AreBased s.base_checks (s.own_checks ++ checks))
      → Begins at (open_tree s at checks)
  open_tree-Begins at checks based =
      if_ind (Begins at) (not s.opens) (λ _. fail-Begins at worktree no_code)
        (λ _.
          if_ind (Begins at) (is_none s.box && is_bad s s.manifest)
            (λ _. fail-Begins at sandbox no_code)
            (λ _.
              if_ind (Begins at) (s.work.foreign_code && not (is_docker (chosen_box s)))
                (λ _. fail-Begins at policy sandbox_required)
                (λ boxed.
                  if_ind (Begins at) (not s.prepares)
                    (λ _.
                      if_ind (Begins at) s.work.foreign_code
                        (λ _. fail-Begins at policy sandbox_required)
                        (λ _. fail-Begins at sandbox no_code))
                    (λ _. (refl, begin-IsFit checks (λ f. (ground (arith, boxed, f), based f)))))))

  based_checks :
      (x : Option (List Text)) (cs : List Text) → x ≡ some cs → AreBased x (s.own_checks ++ cs)
  based_checks x cs e = subst (λ y. AreBased y (s.own_checks ++ cs)) (sym e) refl

  started-Begins : (at : Status) → Begins at (started s at)
  started-Begins at =
      if_ind (Begins at) (not s.driver_found) (λ _. fail-Begins at driver no_code)
        (λ _.
          if_ind (Begins at) (not s.is_repo) (λ _. fail-Begins at worktree no_code)
            (λ _.
              if_ind (λ (x : Option (List Text)). Begins at (with_checks s at x))
                s.work.foreign_code (λ _. checked s.base_checks refl)
                (λ own.
                  open_tree-Begins at s.project_checks (λ f. absurd (ground (arith, own, f))))))
    where
      checked : (x : Option (List Text)) → s.base_checks ≡ x → Begins at (with_checks s at x)
      checked none e = fail-Begins at policy sandbox_required
      checked (some cs) e = open_tree-Begins at cs (λ _. based_checks s.base_checks cs e)

  prepared-MayStart : (at : Status) → prepared s at ≡ Status.ready → MayStart at
  prepared-MayStart Status.idea h = absurd (ground (arith, h))
  prepared-MayStart Status.ready h = inl refl
  prepared-MayStart Status.running h = ground (arith, h)
  prepared-MayStart Status.verify h = absurd (ground (arith, h))
  prepared-MayStart Status.review h = ground (arith, h)
  prepared-MayStart Status.blocked h = ground (arith, h)
  prepared-MayStart Status.done h = absurd (ground (arith, h))
  prepared-MayStart Status.failed h = absurd (ground (arith, h))

  -- What holds of a run of a task that is in the status `at`.
  abbrev pub IsGuarded : Status → Start → Type 0
  IsGuarded at (refused x) = (read_only s.work ≡ true) → x ≡ at
  IsGuarded at (failing x stage code) = (read_only s.work ≡ true) → x ≡ at
  IsGuarded at (begun x b) =
      IsFit b
      × (((read_only s.work ≡ true) × (x ≡ at))
          ⊎ ((x ≡ Status.running) × MayStart at × (s.blocker ≡ some [])))

  guard_read_only :
      (at : Status) (r : Start) → read_only s.work ≡ true → Begins at r → IsGuarded at r
  guard_read_only at (refused x) ro h = λ _. absurd h
  guard_read_only at (failing x stage code) ro h = h
  guard_read_only at (begun x b) ro h = (h.1, inl (ro, h.0))

  guard_running :
      (at : Status) (r : Start)
      → read_only s.work ≡ false
      → MayStart at
      → s.blocker ≡ some []
      → Begins Status.running r
      → IsGuarded at r
  guard_running at (refused x) own may free h = λ ro. absurd (ground (arith, own, ro))
  guard_running at (failing x stage code) own may free h = λ ro. absurd (ground (arith, own, ro))
  guard_running at (begun x b) own may free h = (h.1, inr (h.0, may, free))

  no_reason : (reason : Text) → is_empty reason ≡ true → some reason ≡ some []
  no_reason [] h = refl
  no_reason (c ∷ t) h = absurd (ground (arith, h))

  move_running-IsGuarded :
      (at from : Status) (x : Option Text)
      → s.blocker ≡ x
      → read_only s.work ≡ false
      → MayStart at
      → IsGuarded at (move_running s from x)
  move_running-IsGuarded at from none e own may = λ ro. absurd (ground (arith, own, ro))
  move_running-IsGuarded at from (some reason) e own may =
      if_ind (IsGuarded at) (not (is_empty reason) || not (s.moves from Status.running))
        (λ _ ro. absurd (ground (arith, own, ro)))
        (λ free.
          guard_running at (started s Status.running) own may
            (e ∙ no_reason reason (ground (arith, free))) (started-Begins Status.running))

  -- A run that is not read-only reaches the attempt loop only with its task running and free of
  -- blockers, from a task that was ready, left by a dead runner, blocked and now answered, or in
  -- review for a fix or a repair. A read-only one never moves its task. Either is given an attempt
  -- or more, and foreign code only in Docker, with the checks of the default branch, and with the
  -- credential in its environment only for a driver outside the process.
  pub run_from-IsGuarded : (at : Status) → IsGuarded at (run_from s at)
  unfolding run_from
  run_from-IsGuarded at =
      if_ind (IsGuarded at) (not (is_valid s.work.kind)) (λ _ _. refl)
        (λ _.
          if_ind (IsGuarded at) (read_only s.work)
            (λ ro.
              if_ind (IsGuarded at) (loaded s)
                (λ _. guard_read_only at (started s at) ro (started-Begins at)) (λ _ _. refl))
            (λ own.
              if_ind (IsGuarded at) (not (status_eq (prepared s at) Status.ready))
                (λ _ ro. absurd (ground (arith, own, ro)))
                (λ ready.
                  if_ind (IsGuarded at) (not (loaded s)) (λ _ ro. absurd (ground (arith, own, ro)))
                    (λ _.
                      move_running-IsGuarded at (prepared s at) s.blocker refl own
                        (prepared-MayStart at (is_ready (prepared s at) ready))))))
    where
      is_ready : (x : Status) → not (status_eq x Status.ready) ≡ false → x ≡ Status.ready
      is_ready x h = ground (arith, h)
