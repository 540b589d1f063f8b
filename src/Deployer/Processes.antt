-- ===== src/Deployer/Processes.antt =====
-- The processes that the tasks of a plan of deployer/deployer.go add to those that ran.
use trilha_runner.Prelude.{
  after, ◌≡◌, refl, List, [], ◌∷◌, ◌++◌, Option, none, some, Text, codes, if_ind, append_nil,
  append_assoc, sym, ap, ◌∙◌, ℤ,
}
use trilha_runner.Deployer.{World, State, Ran, no_argv, run_error, run_lines}
use trilha_runner.Deployer.Commands.{Action, run_logged}
use trilha_runner.Deployer.Plan.{Task, command, refused, follow, act}

-- The processes of a list of tasks.
abbrev pub all_of : List Text → List Task → List Ran
all_of environment [] = []
all_of environment (command name argv prefix ∷ ts) =
    record { argv = argv; environment = environment } ∷ all_of environment ts
all_of environment (refused e ∷ ts) = all_of environment ts

all_of_append :
    (environment : List Text) (ts us : List Task)
    → all_of environment (ts ++ us) ≡ all_of environment ts ++ all_of environment us
all_of_append environment [] us = refl
all_of_append environment (command name argv prefix ∷ ts) us =
    ap (λ l. record { argv = argv; environment = environment } ∷ l)
      (all_of_append environment ts us)
all_of_append environment (refused e ∷ ts) us = all_of_append environment ts us

-- The processes of the first tasks of a list.
abbrev pub Part : List Text → List Task → List Ran → Type 0
Part environment tasks ran =
    (done : List Task) × (rest : List Task) × (tasks ≡ done ++ rest)
    × (ran ≡ all_of environment done)

-- What an action adds to the processes: all of its tasks when it succeeds, and else the first ones.
abbrev pub Adds : List Text → List Task → State → State × Option Text → Type 0
Adds environment tasks s (t, none) =
    (t.ran ≡ s.ran ++ all_of environment tasks) × (t.checked ≡ s.checked)
Adds environment tasks s (t, some e) =
    ((more : List Ran) × (t.ran ≡ s.ran ++ more) × Part environment tasks more)
    × (t.checked ≡ s.checked)

pub Adds-failed :
    (environment : List Text) (tasks : List Task) (s t : State) (e : Text)
    → t.ran ≡ s.ran
    → t.checked ≡ s.checked
    → Adds environment tasks s (t, some e)
Adds-failed environment tasks s t e same checks =
    (([], same ∙ sym (append_nil s.ran), ([], tasks, refl, refl)), checks)

Adds-then :
    (environment : List Text) (first second : List Task) (s t : State) (y : State × Option Text)
    → (t.ran ≡ s.ran ++ all_of environment first)
    → (t.checked ≡ s.checked)
    → Adds environment second t y
    → Adds environment (first ++ second) s y
Adds-then environment first second s t (u, none) ran checks (more, checked) = (
  more
      ∙ ap (λ l. l ++ all_of environment second) ran
      ∙ append_assoc s.ran (all_of environment first) (all_of environment second)
      ∙ ap (λ l. s.ran ++ l) (sym (all_of_append environment first second)),
  checked ∙ checks,
)
Adds-then environment first second s t (u, some e) ran checks
      ((more, now, (done, rest, split, same)), checked) =
    (
      (
        all_of environment first ++ more,
        now ∙ ap (λ l. l ++ more) ran ∙ append_assoc s.ran (all_of environment first) more,
        (
          first ++ done,
          rest,
          ap (λ l. first ++ l) split ∙ sym (append_assoc first done rest),
          ap (λ l. all_of environment first ++ l) same ∙ sym (all_of_append environment first done),
        ),
      ),
      checked ∙ checks,
    )

pub Adds-after :
    (environment : List Text) (first second : List Task) (prefix : Text) (s : State)
    (x : State × Option Text) (f : Action)
    → Adds environment first s x
    → ((t : State) → Adds environment second t (f t))
    → Adds environment (first ++ second) s (after prefix x f)
Adds-after environment first second prefix s (t, none) f (ran, checks) k =
    Adds-then environment first second s t (f t) ran checks (k t)
Adds-after environment first second prefix s (t, some e) f
      ((more, ran, (done, rest, split, same)), checks) k =
    (
      (
        more,
        ran,
        (done, rest ++ second, ap (λ l. l ++ second) split ∙ append_assoc done rest second, same),
      ),
      checks,
    )

module _ (w : World) (environment : List Text) (secrets : List (Text × Text)) where
  run_error-Adds :
      (name : Text) (task : Task) (s t : State) (failure : Option (ℤ × Text))
      → (t.ran ≡ s.ran ++ all_of environment (task ∷ []))
      → (t.checked ≡ s.checked)
      → Adds environment (task ∷ []) s (t, run_error name failure)
  run_error-Adds name task s t none ran checks = (ran, checks)
  run_error-Adds name task s t (some (code, e)) ran checks =
      ((all_of environment (task ∷ []), ran, (task ∷ [], [], refl, refl)), checks)

  pub run_logged-Adds :
      (name prefix : Text) (argv : List Text) (s : State)
      → Adds environment
          (command name argv prefix ∷ [])
          s
          (run_logged w environment secrets name argv s)
  unfolding run_logged
  run_logged-Adds name prefix argv s =
      let task = command name argv prefix in
      let r : Ran = record { argv = argv; environment = environment } in
      let p = w.run s.timeout s.ran r in
      if_ind (Adds environment (task ∷ []) s) (no_argv argv)
        (λ bare. Adds-failed environment (task ∷ []) s s (name ++ codes " has no argv") refl refl)
        (λ has.
          run_error-Adds name task s
            (record s { log = s.log ++ run_lines secrets name p; ran = s.ran ++ (r ∷ []) })
            p.failure refl refl)

  act-Adds :
      (task : Task) (s : State) → Adds environment (task ∷ []) s (act w environment secrets task s)
  act-Adds (command name argv prefix) s =
      Adds-after environment (command name argv prefix ∷ []) [] prefix s
        (run_logged w environment secrets name argv s) (λ t. (t, none))
        (run_logged-Adds name prefix argv s) (λ t. (sym (append_nil t.ran), refl))
  act-Adds (refused e) s = Adds-failed environment (refused e ∷ []) s s e refl refl

  pub follow-Adds :
      (tasks : List Task) (s : State)
      → Adds environment tasks s (follow w environment secrets tasks s)
  unfolding follow
  follow-Adds [] s = (sym (append_nil s.ran), refl)
  follow-Adds (task ∷ tasks) s =
      Adds-after environment (task ∷ []) tasks [] s (act w environment secrets task s)
        (follow w environment secrets tasks) (act-Adds task s) (follow-Adds tasks)
