-- ===== src/Sandbox/Tracking.antt =====
-- The containers that the steps of a preparation of sandbox/sandbox.go start and know.
use trilha_runner.Prelude.{
  ℕ, zero, suc, ◌+◌, ltb, ◌==◌, not, List, [], ◌∷◌, ◌++◌, Option, none, is_some, Text, codes,
  text_eq, length, after, after_ind, if_ind, ◌≡◌, refl, trim_space,
}
use trilha_runner.Sandbox.{
  Service, Docker, World, State, initial, container_of, ran, inspect_image, pull, build,
  inspect_container, logs, order, start_container, ensure_image, ensure_up, wait_ready,
}
use trilha_runner.Sandbox.Prepare.{
  agent_of, service_name, create_network, run_service, run_agent, ready_attempts, wait_service,
  start_service, start_services, keep_file, start_agent, set_up,
}
use trilha_runner.Sandbox.Removal.{
  Keeps, start_container-Tracks, order-Tracks, started_containers, Tracks, ran-Tracks,
}

module _ (w : World) where
  ensure_image-Tracks : (image dir : Text) → Keeps w (ensure_image w image dir)
  unfolding ensure_image container_of text_eq
  ensure_image-Tracks image dir s h =
      let inspected = ran (inspect_image image) s in
      let pulled = ran (pull image) inspected in
      let h1 = ran-Tracks w (inspect_image image) s refl h in
      let h2 = ran-Tracks w (pull image) inspected refl h1 in
      let P = λ (x : State × Option Text). Tracks w x.0 in
      if_ind P (not (is_some (w.docker s.done (inspect_image image)).failure)) (λ _. h1)
        (λ _.
          if_ind P (not (is_some (w.docker inspected.done (pull image)).failure)) (λ _. h2)
            (λ _.
              if_ind P (w.has_dockerfile dir)
                (λ _.
                  order-Tracks w (codes "sandbox: build image " ++ image ++ codes ": ")
                    (build image dir) refl pulled h2)
                (λ _. h2)))

  ensure_up-Tracks : (name what : Text) → Keeps w (ensure_up w name what)
  unfolding ensure_up container_of text_eq
  ensure_up-Tracks name what s h =
      let r = w.docker s.done (inspect_container name) in
      let h1 = ran-Tracks w (inspect_container name) s refl h in
      let P = λ (x : State × Option Text). Tracks w x.0 in
      if_ind P (is_some r.failure) (λ _. h1)
        (λ _.
          if_ind P (text_eq (trim_space r.output) (codes "true")) (λ _. h1)
            (λ _. ran-Tracks w (logs name) (ran (inspect_container name) s) refl h1))

  wait_ready-Tracks :
      (left elapsed : ℕ) (last : Text) (argv : List Text)
      → (container_of argv ≡ none)
      → Keeps w (wait_ready w left elapsed last argv)
  unfolding wait_ready
  wait_ready-Tracks zero elapsed last argv other s h = h
  wait_ready-Tracks (suc left) elapsed last argv other s h =
      let r = w.docker s.done argv in
      let h1 = ran-Tracks w argv s other h in
      let P = λ (x : State × Option Text). Tracks w x.0 in
      if_ind P (not (ltb elapsed 90_000)) (λ _. h)
        (λ _.
          if_ind P (not (is_some r.failure)) (λ _. h1)
            (λ _.
              if_ind P (is_some (w.ended (ran argv s).done)) (λ _. h1)
                (λ _.
                  wait_ready-Tracks left (elapsed + r.took + 500) (trim_space r.output) argv other
                    (ran argv s) h1)))

  container_of-exec :
      (name : Text) (words : List Text) → container_of (codes "exec" ∷ name ∷ words) ≡ none
  unfolding container_of text_eq
  container_of-exec name [] = refl
  container_of-exec name (a ∷ []) = refl
  container_of-exec name (a ∷ b ∷ words) = refl

  wait_service-Tracks : (service : Service) → Keeps w (wait_service w service)
  unfolding wait_service
  wait_service-Tracks service s h =
      let argv = codes "exec" ∷ service_name w service ∷ service.ready in
      if_ind (λ (x : State × Option Text). Tracks w x.0) (length service.ready == 0) (λ _. h)
        (λ _.
          after_ind (Tracks w) (codes "sandbox: service " ++ service.name ++ codes ": ")
            (wait_ready w ready_attempts 0 [] argv s) (λ t. (t, none))
            (wait_ready-Tracks ready_attempts 0 [] argv
              (container_of-exec (service_name w service) service.ready) s h)
            (λ t k. k))

  start_service-Tracks : (dir : Text) (service : Service) → Keeps w (start_service w dir service)
  unfolding start_service container_of text_eq run_service
  start_service-Tracks dir service s h =
      let name = service_name w service in
      let starting = codes "sandbox: start service " ++ service.name ++ codes ": " in
      let going_up = ensure_up w name (codes "service " ++ service.name) in
      after_ind (Tracks w) [] (ensure_image w service.image dir s)
        (λ t.
          after [] (start_container w starting name (run_service w service) t)
            (λ u. after [] (going_up u) (wait_service w service)))
        (ensure_image-Tracks service.image dir s h)
        (λ t ht.
          after_ind (Tracks w) [] (start_container w starting name (run_service w service) t)
            (λ u. after [] (going_up u) (wait_service w service))
            (start_container-Tracks w starting name (run_service w service) refl t ht)
            (λ u hu.
              after_ind (Tracks w) [] (going_up u) (wait_service w service)
                (ensure_up-Tracks name (codes "service " ++ service.name) u hu)
                (wait_service-Tracks service)))

  start_services-Tracks :
      (dir : Text) (services : List Service) → Keeps w (start_services w dir services)
  unfolding start_services
  start_services-Tracks dir [] s h = h
  start_services-Tracks dir (service ∷ services) s h =
      after_ind (Tracks w) [] (start_service w dir service s) (start_services w dir services)
        (start_service-Tracks dir service s h) (start_services-Tracks dir services)

  keep_file-Tracks : (env : List Text) → Keeps w (keep_file w env)
  unfolding keep_file
  keep_file-Tracks env s h = h

  start_agent-Tracks : (d : Docker) (dir : Text) → Keeps w (start_agent w d dir)
  unfolding start_agent container_of text_eq
  start_agent-Tracks d dir s h =
      let argv = run_agent w d dir s.file in
      after_ind (Tracks w) []
        (start_container w (codes "sandbox: start agent: ") (agent_of w) argv s)
        (ensure_up w (agent_of w) (codes "the agent container"))
        (start_container-Tracks w (codes "sandbox: start agent: ") (agent_of w) argv refl s h)
        (ensure_up-Tracks (agent_of w) (codes "the agent container"))

  pub set_up-Tracks : (d : Docker) (dir : Text) (env : List Text) → Keeps w (set_up w d dir env)
  unfolding set_up container_of text_eq
  set_up-Tracks d dir env s h =
      let creating = codes "sandbox: create network: " in
      after_ind (Tracks w) [] (order w creating (create_network w) s)
        (λ t. after [] (ensure_image w d.image dir t) (λ u.
          after [] (start_services w dir d.services u)
            (λ v. after [] (keep_file w env v) (start_agent w d dir))))
        (order-Tracks w creating (create_network w) refl s h)
        (λ t ht.
          after_ind (Tracks w) [] (ensure_image w d.image dir t)
            (λ u.
              after [] (start_services w dir d.services u)
                (λ v. after [] (keep_file w env v) (start_agent w d dir)))
            (ensure_image-Tracks d.image dir t ht)
            (λ u hu.
              after_ind (Tracks w) [] (start_services w dir d.services u)
                (λ v. after [] (keep_file w env v) (start_agent w d dir))
                (start_services-Tracks dir d.services u hu)
                (λ v hv.
                  after_ind (Tracks w) [] (keep_file w env v) (start_agent w d dir)
                    (keep_file-Tracks env v hv) (start_agent-Tracks d dir))))

pub initial-Tracks : (w : World) → Tracks w initial
unfolding started_containers
initial-Tracks w = refl
