-- ===== src/Sandbox/Removal.antt =====
-- The containers that the commands of sandbox/sandbox.go start, and those that its state knows.
use trilha_runner.Prelude.{
  Bool, List, [], ◌∷◌, ◌++◌, inl, inr, Option, none, some, is_some, Text, codes, if◌then◌else◌, ◌≡◌,
  refl, sym, ap, ◌∙◌, subst, append_nil, append_assoc, Option-cases, trim_space,
}
use trilha_runner.Sandbox.{
  World, State, Action, first, container_of, ran, add_container, order, start_container,
}

module _ (w : World) where
  -- The container that a command started, when it names one and did not fail.
  unfoldable pub started_by : List (List Text) → List Text → List Text
  unfolding container_of
  started_by past argv = elim (container_of argv) [
    | none ↦ []
    | some name ↦ if is_some (w.docker past argv).failure then [] else name ∷ []
  ]

  unfoldable pub started_containers : List (List Text) → List (List Text) → List Text
  unfolding started_by
  started_containers past [] = []
  started_containers past (argv ∷ argvs) =
      started_by past argv ++ started_containers (past ++ (argv ∷ [])) argvs

  started-snoc :
      (past argvs : List (List Text)) (argv : List Text)
      → started_containers past (argvs ++ (argv ∷ []))
        ≡ started_containers past argvs ++ started_by (past ++ argvs) argv
  unfolding started_containers
  started-snoc past [] argv =
      append_nil (started_by past argv) ∙ ap (λ p. started_by p argv) (sym (append_nil past))
  started-snoc past (first ∷ argvs) argv =
      ap (λ l. started_by past first ++ l) (started-snoc (past ++ (first ∷ [])) argvs argv)
      ∙ ap
          (λ p.
            started_by past first
            ++ (started_containers (past ++ (first ∷ [])) argvs ++ started_by p argv))
          (append_assoc past (first ∷ []) argvs)
      ∙ sym (
          append_assoc (started_by past first) (started_containers (past ++ (first ∷ [])) argvs)
            (started_by (past ++ (first ∷ argvs)) argv))

  -- The state knows the containers that run.
  abbrev pub Tracks : State → Type 0
  Tracks s = s.containers ≡ started_containers [] s.done

  abbrev pub Keeps : Action → Type 0
  Keeps f = (s : State) → Tracks s → Tracks (f s).0

  started_by-none :
      (past : List (List Text)) (argv : List Text)
      → (container_of argv ≡ none)
      → started_by past argv ≡ []
  unfolding started_by
  started_by-none past argv other = rw (other, started_by) refl

  started_by-some :
      (past : List (List Text)) (argv : List Text) (name : Text) {b : Bool}
      → (container_of argv ≡ some name)
      → (is_some (w.docker past argv).failure ≡ b)
      → started_by past argv ≡ (if b then [] else name ∷ [])
  unfolding started_by
  started_by-some past argv name named ends = rw (named, ends, started_by) refl

  pub ran-Tracks :
      (argv : List Text) (s : State) → (container_of argv ≡ none) → Tracks s → Tracks (ran argv s)
  ran-Tracks argv s other h =
      h
      ∙ sym (append_nil (started_containers [] s.done))
      ∙ ap (λ l. started_containers [] s.done ++ l) (sym (started_by-none s.done argv other))
      ∙ sym (started-snoc [] s.done argv)

  pub start_container-Tracks :
      (words name : Text) (argv : List Text)
      → (container_of argv ≡ some name)
      → Keeps (start_container w words name argv)
  unfolding start_container order
  start_container-Tracks words name argv named s h =
      let r = w.docker s.done argv in
      let P : Option Text → Type 0 = λ o.
        Tracks
          (add_container name (
            ran argv s,
            elim o [
              | none ↦ none
              | some e ↦ some (words ++ e ++ codes ": " ++ trim_space r.output)
            ],
          )).0 in
      let grown = started-snoc [] s.done argv in
      elim (Option-cases r.failure) [
        | inl fine ↦ subst P (sym fine) (
            ap (λ l. l ++ (name ∷ [])) h
            ∙ ap (λ l. started_containers [] s.done ++ l)
                (sym (
                  started_by-some s.done argv name named
                    (ap (λ (o : Option Text). is_some o) fine)))
            ∙ sym grown)
        | inr (e, failed) ↦ subst P (sym failed) (
            h
            ∙ sym (append_nil (started_containers [] s.done))
            ∙ ap (λ l. started_containers [] s.done ++ l)
                (sym (
                  started_by-some s.done argv name named
                    (ap (λ (o : Option Text). is_some o) failed)))
            ∙ sym grown)
      ]

  pub order-Tracks :
      (words : Text) (argv : List Text) → (container_of argv ≡ none) → Keeps (order w words argv)
  unfolding order
  order-Tracks words argv other s h = ran-Tracks argv s other h
