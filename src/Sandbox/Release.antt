-- ===== src/Sandbox/Release.antt =====
-- How the preparation of a sandbox of sandbox/sandbox.go ends, and its release.
use trilha_runner.Prelude.{
  List, [], ◌∷◌, ◌++◌, ◌⊎◌, inl, inr, Option, none, some, Text, ◌≡◌, refl, sym, ap, ◌∙◌, append_nil,
  append_assoc,
}
use trilha_runner.Sandbox.{Docker, Environment, World, State, initial}
use trilha_runner.Sandbox.Prepare.{
  agent_of, remove_container, remove_network, remove_all, cleanup, set_up, entry_of, given, entered,
  prepare,
}
use trilha_runner.Sandbox.Removal.{started_containers, Tracks}
use trilha_runner.Sandbox.Tracking.{set_up-Tracks, initial-Tracks}
use trilha_runner.Sandbox.Growth.{names_of, Grows, set_up-Grows}

-- The commands that remove containers, the last one first.
unfoldable pub removals : List Text → List (List Text)
removals [] = []
removals (name ∷ names) = removals names ++ (remove_container name ∷ [])

abbrev pub listed : Option Text → List Text
listed none = []
listed (some path) = path ∷ []

-- A state whose containers, network and file are all removed, in this order, after some commands.
abbrev pub IsRemoved : World → List (List Text) → State → Type 0
IsRemoved w before s =
    (s.done ≡ before ++ (removals (started_containers w [] before) ++ (remove_network w ∷ [])))
    × (s.removed ≡ listed s.file)

module _ (w : World) where
  remove_all-done :
      (names : List Text) (s : State)
      → ((remove_all w names s).0.done ≡ s.done ++ removals names)
        × ((remove_all w names s).0.file ≡ s.file)
  unfolding remove_all removals
  remove_all-done [] s = (sym (append_nil s.done), refl)
  remove_all-done (name ∷ names) s =
      let (all, file) = remove_all-done names s in
      (
        ap (λ l. l ++ (remove_container name ∷ [])) all
            ∙ append_assoc s.done (removals names) (remove_container name ∷ []),
        file,
      )

  cleanup-IsRemoved : (s : State) → Tracks w s → IsRemoved w s.done (cleanup w s).0
  unfolding cleanup
  cleanup-IsRemoved s tracks =
      let (all, file) = remove_all-done s.containers s in
      (
        ap (λ l. l ++ (remove_network w ∷ [])) all
            ∙ append_assoc s.done (removals s.containers) (remove_network w ∷ [])
            ∙ ap (λ l. s.done ++ (removals l ++ (remove_network w ∷ []))) tracks,
        ap (λ o. listed o) (sym file),
      )

-- The end of a preparation: with an error, nothing was done or all is removed; with a sandbox, the
-- containers of the services and of the agent were started, and a release removes all.
abbrev pub Ends : World → Docker → State × (Text ⊎ Environment) → Type 0
Ends w d (s, inl e) = (s ≡ initial) ⊎ ((before : List (List Text)) × IsRemoved w before s)
Ends w d (s, inr env) =
    (started_containers w [] s.done ≡ names_of w d.services ++ (agent_of w ∷ []))
    × (env.prefix ≡ entry_of w d)
    × IsRemoved w s.done (cleanup w s).0

prepared-Ends :
    (w : World) (d : Docker) (dir : Text) (x : State × Option Text)
    → Tracks w x.0
    → Grows w (names_of w d.services ++ (agent_of w ∷ [])) initial x
    → Ends w d (given w d dir x)
unfolding given
prepared-Ends w d dir (s, none) tracks grows =
    (sym tracks ∙ grows, refl, cleanup-IsRemoved w s tracks)
prepared-Ends w d dir (s, some e) tracks grows = inr (s.done, cleanup-IsRemoved w s tracks)

entered-Ends :
    (w : World) (d : Docker) (env : List Text) (path : Option Text) (absolute : Text ⊎ Text)
    → Ends w d (entered w d env path absolute)
unfolding entered
entered-Ends w d env (some e) absolute = inl refl
entered-Ends w d env none (inl e) = inl refl
entered-Ends w d env none (inr dir) =
    prepared-Ends w d dir (set_up w d dir env initial)
      (set_up-Tracks w d dir env initial (initial-Tracks w)) (set_up-Grows w d dir env initial)

-- A preparation that fails has either done nothing or ends with the removal of every container that
-- docker started for it, the last one first, then of its network, and of the file of the
-- environment; one that succeeds has started the containers of the services and of the agent and no
-- other, enters the agent's, and its release removes all of them in the same way.
pub prepare-Ends :
    (w : World) (d : Docker) (dir : Text) (env : List Text) → Ends w d (prepare w d dir env)
unfolding prepare
prepare-Ends w d dir env = entered-Ends w d env w.look_path (w.absolute dir)
