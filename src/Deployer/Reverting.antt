-- ===== src/Deployer/Reverting.antt =====
-- The processes that executeRollback of deployer/deployer.go adds to those that ran.
use trilha_runner.Prelude.{
  after, ℕ, ◌<◌, ◌≤◌, ◌==◌, ◌≡◌, refl, Bool, true, false, ◌||◌, not, List, [], ◌∷◌, ◌++◌, Option,
  none, some, Text, codes, length, if◌then◌else◌, if_ind, append_nil, length-append, sym, ◌∙◌,
  arith,
}
use trilha_runner.Deployer.{Migration, Profile, World, State, no_argv}
use trilha_runner.Deployer.Commands.{Action, run_logged, roll_back, downgrade}
use trilha_runner.Deployer.Plan.{Task, command}
use trilha_runner.Deployer.Processes.{run_logged-Adds, Adds-failed, Adds-after, all_of, Adds}

abbrev pub downgrade_tasks : Option Migration → List Task
downgrade_tasks none = []
downgrade_tasks (some m) =
    if length m.downgrade == 0 || not m.is_reversible
    then []
    else command (codes "rollback-migration") m.downgrade [] ∷ []

-- The image first, and then the migration, when it can be taken back.
abbrev pub rollback_tasks : Profile → List Task
rollback_tasks profile =
    command (codes "rollback-image") profile.rollback [] ∷ downgrade_tasks profile.migrate

module _ (w : World) (environment : List Text) (secrets : List (Text × Text)) where
  downgrade_branch :
      (bare fixed : Bool) (argv : List Text) (s t : State)
      → (t.ran ≡ s.ran)
      → (t.checked ≡ s.checked)
      → Adds environment
          (if bare || fixed then [] else command (codes "rollback-migration") argv [] ∷ [])
          s
          (if bare
            then (s, none)
            else if fixed
            then (t, none)
            else run_logged w environment secrets (codes "rollback-migration") argv s)
  downgrade_branch true fixed argv s t ran checks = (sym (append_nil s.ran), refl)
  downgrade_branch false true argv s t ran checks = (ran ∙ sym (append_nil s.ran), checks)
  downgrade_branch false false argv s t ran checks =
      run_logged-Adds w environment secrets (codes "rollback-migration") [] argv s

  downgrade-Adds :
      (migrate : Option Migration) (s : State)
      → Adds environment (downgrade_tasks migrate) s (downgrade w environment secrets migrate s)
  unfolding downgrade
  downgrade-Adds none s = (sym (append_nil s.ran), refl)
  downgrade-Adds (some m) s =
      downgrade_branch (length m.downgrade == 0) (not m.is_reversible) m.downgrade s
        (record s {
          log =
              s.log
              ++ codes
                  "rollback-migration skipped: migration is not reversible; image-only rollback\n";
        })
        refl refl

  pub roll_back-Adds :
      (profile : Profile) (s : State)
      → Adds environment (rollback_tasks profile) s (roll_back w environment secrets profile s)
  unfolding roll_back
  roll_back-Adds profile s =
      if_ind (Adds environment (rollback_tasks profile) s) (length profile.rollback == 0)
        (λ bare.
          Adds-failed environment (rollback_tasks profile) s s
            (codes "deployment profile has no rollback command") refl refl)
        (λ has.
          Adds-after environment (command (codes "rollback-image") profile.rollback [] ∷ [])
            (downgrade_tasks profile.migrate) [] s
            (run_logged w environment secrets (codes "rollback-image") profile.rollback s)
            (downgrade w environment secrets profile.migrate)
            (run_logged-Adds w environment secrets (codes "rollback-image") [] profile.rollback s)
            (downgrade-Adds profile.migrate))

  -- An action that adds processes takes none away.
  Adds-length :
      (tasks : List Task) (s : State) (x : State × Option Text)
      → Adds environment tasks s x
      → length s.ran ≤ length x.0.ran
  Adds-length tasks s (t, none) (ran, checks) =
      rw ran (omega (arith, length-append s.ran (all_of environment tasks)))
  Adds-length tasks s (t, some e) ((more, ran, part), checks) =
      rw ran (omega (arith, length-append s.ran more))

  after-length :
      (f : Action) (n : ℕ) (x : State × Option Text)
      → n < length x.0.ran
      → ((t : State) → length t.ran ≤ length (f t).0.ran)
      → n < length (after [] x f).0.ran
  after-length f n (t, none) h k = omega (arith, h, k t)
  after-length f n (t, some e) h k = h

  run_logged-length :
      (name : Text) (argv : List Text) (s : State)
      → (no_argv argv ≡ false)
      → length s.ran < length (run_logged w environment secrets name argv s).0.ran
  unfolding run_logged
  run_logged-length name argv s has =
      rw has (
        omega (arith, length-append s.ran (record { argv = argv; environment = environment } ∷ [])))

  bare_no_argv : (argv : List Text) → (length argv == 0 ≡ true) → (no_argv argv ≡ false) → ⊥
  bare_no_argv [] bare has = cc
  bare_no_argv (program ∷ arguments) bare has = ground arith

  -- A rollback that has a command tries it.
  pub roll_back-length :
      (profile : Profile) (s : State)
      → (no_argv profile.rollback ≡ false)
      → length s.ran < length (roll_back w environment secrets profile s).0.ran
  unfolding roll_back
  roll_back-length profile s has =
      if_ind (λ (x : State × Option Text). length s.ran < length x.0.ran)
        (length profile.rollback == 0) (λ bare. absurd (bare_no_argv profile.rollback bare has))
        (λ _.
          after-length (downgrade w environment secrets profile.migrate) (length s.ran)
            (run_logged w environment secrets (codes "rollback-image") profile.rollback s)
            (run_logged-length (codes "rollback-image") profile.rollback s has)
            (λ t.
              Adds-length (downgrade_tasks profile.migrate) t
                (downgrade w environment secrets profile.migrate t)
                (downgrade-Adds profile.migrate t)))
