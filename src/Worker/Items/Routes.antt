-- ===== src/Worker/Items/Routes.antt =====
-- When a worker runs an item and when it pushes.
use trilha_runner.Prelude.{
  ◌≡◌, ◌⊎◌, ◌↔◌, refl, Bool, true, false, ◌&&◌, not, List, [], ◌∷◌, Option, none, some, Text,
  is_empty, All, ap, ℕ, if◌then◌else◌, if_ind, arith, cut, ◌==◌,
}
use trilha_runner.Worker.Items.{
  strings_cut, is_done, remote_dependency_blocker, Bundle, BundleAnswer, bundled, no_bundle,
  bundle_failed, Item, WorkerOptions, RunEnd, Answers, Outcome, is_own, ItemError, no_error,
  no_bundle_answer, needs_workspace_root, other_repository, other_branch, no_checkout, no_runner,
  chosen, outcome, run_item, differs, with_bundle, with_answer, execute_item,
}

-- A dependency that the worker does not wait for: one without an alias, or one that is done.
abbrev pub IsReady : (Text → Text → Option Text) → Text → Type 0
IsReady status d =
    let (alias, id, ok) = strings_cut d in (ok ≡ false) ⊎ (is_done (status alias id) ≡ true)

blocker-IsReady :
    (status : Text → Text → Option Text) (ds : List Text)
    → (is_empty (remote_dependency_blocker status ds) ≡ true) ↔ All (IsReady status) ds
unfolding remote_dependency_blocker
blocker-IsReady status [] = (λ _. tt, λ _. refl)
blocker-IsReady status (d ∷ ds) =
    let k = blocker-IsReady status ds in (λ h. ground (arith, h, k), λ h. ground (arith, h, k))

module _ (o : WorkerOptions) (item : Item) (a : Answers) where
  -- What must hold for a run in the checkout of a bundle, or in the worker's own.
  abbrev pub MayRunIn : Bool → BundleAnswer → Type 0
  MayRunIn true (bundled b) =
      All (IsReady a.status) b.depends_on
      × (is_empty o.workspace_root ≡ false)
      × (differs b.repository o.repository ≡ false)
      × (differs b.default_branch o.default_branch ≡ false)
  MayRunIn false no_bundle = Unit
  MayRunIn _ _ = ⊥

  abbrev pub MayRun : Option (Bool × Text) → Type 0
  MayRun none = Unit
  MayRun (some (in_bundle, branch)) = (is_empty item.waiting ≡ true) × MayRunIn in_bundle a.bundle

  -- What must hold where a branch was pushed: the run at hand has a result of its own work.
  abbrev pub MayPush : Option (Bool × Text) → Type 0
  MayPush none = ⊥
  MayPush (some (in_bundle, branch)) =
      (o.push ≡ true)
      × (item.foreign_code ≡ false)
      × ((a.run in_bundle branch).has_error ≡ false)
      × ((a.run in_bundle branch).result ≡ some false)

  abbrev pub IsAllowed : Outcome → Type 0
  IsAllowed x =
      MayRun x.ran
      × ((x.tried_push ≡ true) → MayPush x.ran)
      × ((is_empty x.blocked ≡ false) → (x.ran ≡ none) × (x.error ≡ no_error))

  own_result : (end : RunEnd) → is_own end ≡ true → end.result ≡ some false
  own_result end h = ground (arith, h)

  not_run : (e : ItemError) → IsAllowed (outcome e)
  not_run e = (tt, λ p. absurd (ground (arith, p)), λ q. absurd (ground (arith, q)))

  run_item-IsAllowed :
      (in_bundle : Bool) (branch : Text)
      → is_empty item.waiting ≡ true
      → MayRunIn in_bundle a.bundle
      → IsAllowed (run_item o item a in_bundle branch)
  run_item-IsAllowed in_bundle branch w m =
      let end = a.run in_bundle branch in
      if_ind IsAllowed end.has_error
        (λ _. ((w, m), λ p. absurd (ground (arith, p)), λ q. absurd (ground (arith, q))))
        (λ good.
          if_ind IsAllowed (o.push && is_own end && not item.foreign_code)
            (λ push. (
              (w, m),
              λ _. (
                ground (arith, push),
                ground (arith, push),
                good,
                own_result end (ground (arith, push)),
              ),
              λ q. absurd (ground (arith, q)),
            ))
            (λ _. ((w, m), λ p. absurd (ground (arith, p)), λ q. absurd (ground (arith, q)))))

  with_bundle-IsAllowed :
      (b : Bundle)
      → is_empty item.waiting ≡ true
      → a.bundle ≡ bundled b
      → IsAllowed (with_bundle o item a b)
  with_bundle-IsAllowed b w e =
      let k = blocker-IsReady a.status b.depends_on in
      let blocker = remote_dependency_blocker a.status b.depends_on in
      if_ind IsAllowed (not (is_empty blocker))
        (λ _. (tt, λ p. absurd (ground (arith, p)), λ _. (refl, refl)))
        (λ free.
          if_ind IsAllowed (is_empty o.workspace_root) (λ _. not_run needs_workspace_root)
            (λ root.
              if_ind IsAllowed (differs b.default_branch o.default_branch)
                (λ _. not_run other_branch)
                (λ branch.
                  if_ind IsAllowed (differs b.repository o.repository)
                    (λ _. not_run other_repository)
                    (λ repository.
                      if_ind IsAllowed (not a.checkout) (λ _. not_run no_checkout)
                        (λ _.
                          if_ind IsAllowed (not a.runner) (λ _. not_run no_runner)
                            (λ _.
                              run_item-IsAllowed true (chosen b.default_branch o.default_branch) w
                                (rw e (k.0 (ground (arith, free)), root, repository, branch))))))))

  -- A worker runs an item only when it does not wait: in the checkout of a bundle whose
  -- dependencies on other projects, alias:id, are all done and that the worker's options do not
  -- contradict, or in its own when there is no bundle; dependencies without an alias are not looked
  -- at. It pushes only with --push, after a run with no error whose result is
  -- not of a read-only run, and never foreign code. A blocked item was not run.
  pub execute_item-IsAllowed : IsAllowed (execute_item o item a)
  unfolding execute_item
  execute_item-IsAllowed =
      if_ind IsAllowed (not (is_empty item.waiting))
        (λ _. (tt, λ p. absurd (ground (arith, p)), λ _. (refl, refl)))
        (λ free. answered a.bundle refl (ground (arith, free)))
    where
      answered :
          (x : BundleAnswer)
          → a.bundle ≡ x
          → is_empty item.waiting ≡ true
          → IsAllowed (with_answer o item a x)
      answered (bundled b) e w = with_bundle-IsAllowed b w e
      answered no_bundle e w = run_item-IsAllowed false o.default_branch w (rw e tt)
      answered bundle_failed e w = not_run no_bundle_answer

-- The two cuts of `c ∷ s`, from those of `s`; the flag says that `c` is the colon.
abbrev longer : Bool → ℕ → Text → Text × Text × Bool → Text × Text × Bool
longer here c s u =
    if here then ([], s, true) else if u.2 then (c ∷ u.0, u.1, true) else ([], [], false)

abbrev longer_cut : Bool → ℕ → Text → Text × Text × Bool → Text × Text × Bool
longer_cut here c s v = if here then ([], s, true) else (c ∷ v.0, v.1, v.2)

abbrev Agree : Text × Text × Bool → Text × Text × Bool → Type 0
Agree u v = (u.2 ≡ v.2) × ((u.2 ≡ true) → u ≡ v)

longer-Agree :
    (here : Bool) (c : ℕ) (s : Text) (u v : Text × Text × Bool)
    → Agree u v
    → Agree (longer here c s u) (longer_cut here c s v)
longer-Agree true c s u v h = (refl, λ _. refl)
longer-Agree false c s (x, y, true) v h =
    (h.0, λ _. ap (λ (w : Text × Text × Bool). (c ∷ w.0, w.1, w.2)) (h.1 refl))
longer-Agree false c s (x, y, false) v h = (h.0, λ e. absurd (ground (arith, e)))

-- The worker reads a dependency on another project as strings.Cut would: it finds a colon exactly
-- when there is one, and then the alias and the id are the texts on its two sides.
pub strings_cut-cut :
    (s : Text)
    → ((strings_cut s).2 ≡ (cut s b':').2)
      × (((strings_cut s).2 ≡ true) → strings_cut s ≡ cut s b':')
unfolding strings_cut cut
strings_cut-cut [] = (refl, λ h. absurd (ground (arith, h)))
strings_cut-cut (c ∷ s) =
    longer-Agree (c == b':') c s (strings_cut s) (cut s b':') (strings_cut-cut s)
