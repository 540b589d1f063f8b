-- ===== src/Sandbox/Growth.antt =====
-- The containers that a preparation of sandbox/sandbox.go has started when it succeeds.
use trilha_runner.Prelude.{
  ℕ, zero, suc, ◌+◌, ltb, ◌==◌, not, List, [], ◌∷◌, ◌++◌, Option, none, some, is_some, Text, codes,
  text_eq, length, after, if_ind, ◌≡◌, refl, sym, ap, ◌∙◌, append_nil, append_assoc, trim_space,
}
use trilha_runner.Sandbox.{
  Service, Docker, World, State, Action, first, told, ran, add_container, inspect_image, pull,
  inspect_container, order, start_container, ensure_image, ensure_up, wait_ready,
}
use trilha_runner.Sandbox.Prepare.{
  agent_of, service_name, create_network, run_service, run_agent, ready_attempts, wait_service,
  start_service, start_services, keep_file, start_agent, set_up,
}

abbrev pub names_of : World → List Service → List Text
names_of w [] = []
names_of w (service ∷ services) = service_name w service ∷ names_of w services

module _ (w : World) where
  -- An action that succeeds has started just some containers.
  abbrev pub Grows : List Text → State → State × Option Text → Type 0
  Grows names s (t, none) = t.containers ≡ s.containers ++ names
  Grows names s (t, some e) = Unit

  Grows-then :
      (first second : List Text) (s t : State) (y : State × Option Text)
      → (t.containers ≡ s.containers ++ first)
      → Grows second t y
      → Grows (first ++ second) s y
  Grows-then first second s t (u, none) h k =
      k ∙ ap (λ l. l ++ second) h ∙ append_assoc s.containers first second
  Grows-then first second s t (u, some e) h k = tt

  Grows-after :
      (first second : List Text) (prefix : Text) (s : State) (x : State × Option Text) (f : Action)
      → Grows first s x
      → ((t : State) → Grows second t (f t))
      → Grows (first ++ second) s (after prefix x f)
  Grows-after first second prefix s (t, none) f h k = Grows-then first second s t (f t) h (k t)
  Grows-after first second prefix s (t, some e) f h k = tt

  Grows-Same :
      (s : State) (x : State × Option Text) → (x.0.containers ≡ s.containers) → Grows [] s x
  Grows-Same s (t, none) h = h ∙ sym (append_nil s.containers)
  Grows-Same s (t, some e) h = tt

  ensure_image-Grows : (image dir : Text) (s : State) → Grows [] s (ensure_image w image dir s)
  unfolding ensure_image order
  ensure_image-Grows image dir s =
      let inspected = ran (inspect_image image) s in
      let P = λ (x : State × Option Text). x.0.containers ≡ s.containers in
      Grows-Same s (ensure_image w image dir s) (
        if_ind P (not (is_some (w.docker s.done (inspect_image image)).failure)) (λ _. refl)
          (λ _.
            if_ind P (not (is_some (w.docker inspected.done (pull image)).failure)) (λ _. refl)
              (λ _. if_ind P (w.has_dockerfile dir) (λ _. refl) (λ _. refl))))

  ensure_up-Grows : (name what : Text) (s : State) → Grows [] s (ensure_up w name what s)
  unfolding ensure_up
  ensure_up-Grows name what s =
      let r = w.docker s.done (inspect_container name) in
      let P = λ (x : State × Option Text). x.0.containers ≡ s.containers in
      Grows-Same s (ensure_up w name what s) (
        if_ind P (is_some r.failure) (λ _. refl)
          (λ _. if_ind P (text_eq (trim_space r.output) (codes "true")) (λ _. refl) (λ _. refl)))

  wait_ready-Same :
      (left elapsed : ℕ) (last : Text) (argv : List Text) (s : State)
      → (wait_ready w left elapsed last argv s).0.containers ≡ s.containers
  unfolding wait_ready
  wait_ready-Same zero elapsed last argv s = refl
  wait_ready-Same (suc left) elapsed last argv s =
      let r = w.docker s.done argv in
      let P = λ (x : State × Option Text). x.0.containers ≡ s.containers in
      if_ind P (not (ltb elapsed 90_000)) (λ _. refl)
        (λ _.
          if_ind P (not (is_some r.failure)) (λ _. refl)
            (λ _.
              if_ind P (is_some (w.ended (ran argv s).done)) (λ _. refl)
                (λ _.
                  wait_ready-Same left (elapsed + r.took + 500) (trim_space r.output) argv
                    (ran argv s))))

  wait_service-Grows : (service : Service) (s : State) → Grows [] s (wait_service w service s)
  unfolding wait_service
  wait_service-Grows service s =
      let argv = codes "exec" ∷ service_name w service ∷ service.ready in
      if_ind (Grows [] s) (length service.ready == 0) (λ _. sym (append_nil s.containers))
        (λ _.
          Grows-after [] [] (codes "sandbox: service " ++ service.name ++ codes ": ") s
            (wait_ready w ready_attempts 0 [] argv s) (λ t. (t, none))
            (Grows-Same s (wait_ready w ready_attempts 0 [] argv s)
              (wait_ready-Same ready_attempts 0 [] argv s))
            (λ t. sym (append_nil t.containers)))

  add_container-Grows :
      (name : Text) (s t : State) (o : Option Text)
      → (t.containers ≡ s.containers)
      → Grows (name ∷ []) s (add_container name (t, o))
  add_container-Grows name s t none same = ap (λ l. l ++ (name ∷ [])) same
  add_container-Grows name s t (some e) same = tt

  start-Grows :
      (words name : Text) (argv : List Text) (s : State)
      → Grows (name ∷ []) s (start_container w words name argv s)
  unfolding start_container order
  start-Grows words name argv s =
      add_container-Grows name s (ran argv s) (told words (w.docker s.done argv)) refl

  start_service-Grows :
      (dir : Text) (service : Service) (s : State)
      → Grows (service_name w service ∷ []) s (start_service w dir service s)
  unfolding start_service
  start_service-Grows dir service s =
      let name = service_name w service in
      let starting = codes "sandbox: start service " ++ service.name ++ codes ": " in
      let going_up = ensure_up w name (codes "service " ++ service.name) in
      Grows-after [] (name ∷ []) [] s (ensure_image w service.image dir s)
        (λ t.
          after [] (start_container w starting name (run_service w service) t)
            (λ u. after [] (going_up u) (wait_service w service)))
        (ensure_image-Grows service.image dir s)
        (λ t.
          Grows-after (name ∷ []) [] [] t
            (start_container w starting name (run_service w service) t)
            (λ u. after [] (going_up u) (wait_service w service))
            (start-Grows starting name (run_service w service) t)
            (λ u.
              Grows-after [] [] [] u (going_up u) (wait_service w service)
                (ensure_up-Grows name (codes "service " ++ service.name) u)
                (wait_service-Grows service)))

  start_services-Grows :
      (dir : Text) (services : List Service) (s : State)
      → Grows (names_of w services) s (start_services w dir services s)
  unfolding start_services
  start_services-Grows dir [] s = sym (append_nil s.containers)
  start_services-Grows dir (service ∷ services) s =
      Grows-after (service_name w service ∷ []) (names_of w services) [] s
        (start_service w dir service s) (start_services w dir services)
        (start_service-Grows dir service s) (start_services-Grows dir services)

  pub set_up-Grows :
      (d : Docker) (dir : Text) (env : List Text) (s : State)
      → Grows (names_of w d.services ++ (agent_of w ∷ [])) s (set_up w d dir env s)
  unfolding set_up order keep_file start_agent
  set_up-Grows d dir env s =
      let agent = agent_of w ∷ [] in
      let creating = codes "sandbox: create network: " in
      Grows-after [] (names_of w d.services ++ agent) [] s (order w creating (create_network w) s)
        (λ t. after [] (ensure_image w d.image dir t) (λ u.
          after [] (start_services w dir d.services u)
            (λ v. after [] (keep_file w env v) (start_agent w d dir))))
        (Grows-Same s (order w creating (create_network w) s) refl)
        (λ t.
          Grows-after [] (names_of w d.services ++ agent) [] t (ensure_image w d.image dir t)
            (λ u.
              after [] (start_services w dir d.services u)
                (λ v. after [] (keep_file w env v) (start_agent w d dir)))
            (ensure_image-Grows d.image dir t)
            (λ u.
              Grows-after (names_of w d.services) agent [] u (start_services w dir d.services u)
                (λ v. after [] (keep_file w env v) (start_agent w d dir))
                (start_services-Grows dir d.services u)
                (λ v.
                  Grows-after [] agent [] v (keep_file w env v) (start_agent w d dir)
                    (Grows-Same v (keep_file w env v) refl)
                    (λ x.
                      Grows-after agent [] [] x
                        (start_container w (codes "sandbox: start agent: ") (agent_of w)
                          (run_agent w d dir x.file) x)
                        (ensure_up w (agent_of w) (codes "the agent container"))
                        (start-Grows (codes "sandbox: start agent: ") (agent_of w)
                          (run_agent w d dir x.file) x)
                        (ensure_up-Grows (agent_of w) (codes "the agent container"))))))
