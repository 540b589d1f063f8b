-- ===== src/Sandbox/Prepare.antt =====
-- Docker.Prepare of sandbox/sandbox.go: the network, the services, the agent's container, and what
-- removes them.
use trilha_runner.Prelude.{
  ℕ, ◌+◌, ◌==◌, false, ◌&&◌, ◌||◌, not, List, [], ◌∷◌, ◌++◌, ◌⊎◌, inl, inr, Option, none, some,
  is_some, Text, codes, contains, contains_byte, trim_space, itoa, length, after, if◌then◌else◌,
}
use trilha_runner.Sandbox.{
  Service, Docker, Environment, Reply, File, World, State, initial, Action, first, safe_from,
  workspace_mount, resource_limits, agent_privileges, tmpfs, env_arguments, ran, label, order,
  start_container, ensure_image, ensure_up, wait_ready,
}

-- The names of a run, by the time of its start.
abbrev pub id_of : World → Text
id_of w = codes "trilha-" ++ itoa w.now

abbrev pub network_of : World → Text
network_of w = id_of w ++ codes "-net"

abbrev pub agent_of : World → Text
agent_of w = id_of w ++ codes "-agent"

unfoldable pub service_name : World → Service → Text
unfolding safe_from
service_name w service = id_of w ++ codes "-" ++ safe_from false service.name

abbrev pub create_network : World → List Text
create_network w = codes "network" ∷ codes "create" ∷ (label (id_of w) ++ (network_of w ∷ []))

abbrev pub remove_container : Text → List Text
remove_container name = codes "rm" ∷ codes "-f" ∷ name ∷ []

abbrev pub remove_network : World → List Text
remove_network w = codes "network" ∷ codes "rm" ∷ network_of w ∷ []

unfoldable pub run_service : World → Service → List Text
unfolding service_name
run_service w service =
    codes "run"
    ∷ codes "-d"
    ∷ codes "--name"
    ∷ service_name w service
    ∷ (label (id_of w)
        ++ (codes "--network" ∷ network_of w ∷ codes "--network-alias" ∷ service.name ∷ [])
        ++ resource_limits
        ++ tmpfs "/tmp:rw,nosuid,nodev"
        ++ tmpfs "/run:rw,nosuid,nodev"
        ++ tmpfs "/var/lib/postgresql/data:rw,nosuid,nodev"
        ++ env_arguments service.env
        ++ (service.image ∷ []))

abbrev pub text_of : Option Text → Text
text_of none = []
text_of (some t) = t

abbrev pub run_agent : World → Docker → Text → Option Text → List Text
run_agent w d dir file =
    codes "run"
    ∷ codes "-d"
    ∷ codes "--name"
    ∷ agent_of w
    ∷ (label (id_of w)
        ++ (codes "--network" ∷ network_of w ∷ [])
        ++ resource_limits
        ++ agent_privileges w.user
        ++ tmpfs "/tmp:rw,nosuid,nodev"
        ++ tmpfs "/run:rw,nosuid,nodev"
        ++ (codes "--env-file"
            ∷ text_of file
            ∷ codes "--mount"
            ∷ workspace_mount dir d.is_read_only
            ∷ codes "--workdir"
            ∷ codes "/workspace"
            ∷ d.image
            ∷ codes "tail"
            ∷ codes "-f"
            ∷ codes "/dev/null"
            ∷ []))

-- The fuel of waitReady: the attempts that it has time for.
abbrev pub ready_attempts : ℕ
ready_attempts = 180

-- The lines of the file of the environment, and the error of the first that cannot stand there.
unfoldable pub write_lines : (ℕ → Option Text) → ℕ → List Text → Option Text
write_lines print n [] = none
write_lines print n (line ∷ lines) =
    let rest = write_lines print (n + 1) lines in
    if contains_byte line 10 || contains_byte line 0
    then some (codes "sandbox: an environment value contains a newline")
    else if is_some (print n)
    then print n
    else rest

-- writeEnvironmentFile
unfoldable pub write_environment_file : File → List Text → Option Text × Option Text
unfolding write_lines
write_environment_file f env =
    let lines = codes "HOME=/tmp" ∷ codes "TRILHA_WORKTREE=/workspace" ∷ env in
    elim f.created [
      | inl e ↦ (none, some e)
      | inr path ↦ (some path, if is_some f.chmod then f.chmod else write_lines f.print 0 lines)
    ]

-- What Docker says of a container that is to be removed, unless it is gone.
abbrev pub complaint : Text → Reply → List Text
complaint gone r =
    if is_some r.failure && not (contains r.output gone) then trim_space r.output ∷ [] else []

module _ (w : World) where
  -- The loop of cleanup, from the last container to the first, with its failures.
  unfoldable pub remove_all : List Text → State → State × List Text
  unfolding contains
  remove_all [] s = (s, [])
  remove_all (name ∷ names) s =
      let (t, failures) = remove_all names s in
      let r = w.docker t.done (remove_container name) in
      (ran (remove_container name) t, failures ++ complaint (codes "No such container") r)

  -- cleanup: the containers, the network, and the file of the environment.
  unfoldable pub cleanup : State → State × List Text
  unfolding remove_all
  cleanup s =
      let (t, failures) = remove_all s.containers s in
      let r = w.docker t.done (remove_network w) in
      let u = ran (remove_network w) t in
      (
        record u { removed = elim s.file [ none ↦ [] | some path ↦ path ∷ [] ] },
        failures ++ complaint (codes "not found") r,
      )

  unfoldable pub wait_service : Service → Action
  unfolding wait_ready service_name
  wait_service service s =
      if length service.ready == 0
      then (s, none)
      else after (codes "sandbox: service " ++ service.name ++ codes ": ")
          (wait_ready w ready_attempts 0 [] (codes "exec" ∷ service_name w service ∷ service.ready)
            s)
          (λ t. (t, none))

  -- One turn of the loop over the services.
  unfoldable pub start_service : Text → Service → Action
  unfolding ensure_image start_container ensure_up run_service wait_service service_name
  start_service dir service s = after [] (ensure_image w service.image dir s) (λ t.
      after []
        (start_container w (codes "sandbox: start service " ++ service.name ++ codes ": ")
          (service_name w service) (run_service w service) t)
        (λ u.
          after [] (ensure_up w (service_name w service) (codes "service " ++ service.name) u)
            (wait_service service)))

  unfoldable pub start_services : Text → List Service → Action
  unfolding start_service
  start_services dir [] s = (s, none)
  start_services dir (service ∷ services) s =
      after [] (start_service dir service s) (start_services dir services)

  unfoldable pub keep_file : List Text → Action
  unfolding write_environment_file
  keep_file env s =
      let (path, e) = write_environment_file w.file env in (record s { file = path }, e)

  unfoldable pub start_agent : Docker → Text → Action
  unfolding start_container ensure_up
  start_agent d dir s =
      after []
        (start_container w (codes "sandbox: start agent: ") (agent_of w) (run_agent w d dir s.file)
          s)
        (ensure_up w (agent_of w) (codes "the agent container"))

  -- Prepare, from the creation of the network on.
  unfoldable pub set_up : Docker → Text → List Text → Action
  unfolding order ensure_image start_services keep_file start_agent
  set_up d dir env s =
      after [] (order w (codes "sandbox: create network: ") (create_network w) s) (λ t.
        after [] (ensure_image w d.image dir t) (λ u.
          after [] (start_services dir d.services u)
            (λ v. after [] (keep_file env v) (start_agent d dir))))

  abbrev pub entry_of : Docker → List Text
  entry_of d =
      first d.binary (codes "docker")
      ∷ codes "exec"
      ∷ codes "-i"
      ∷ codes "--workdir"
      ∷ codes "/workspace"
      ∷ agent_of w
      ∷ []

  -- A failure removes all at once; its release has nothing left to do.
  unfoldable pub given : Docker → Text → State × Option Text → State × (Text ⊎ Environment)
  unfolding cleanup
  given d dir (s, none) = (s, inr (record { dir = dir; env = []; prefix = entry_of d }))
  given d dir (s, some e) = ((cleanup s).0, inl e)

  unfoldable pub entered :
      Docker → List Text → Option Text → Text ⊎ Text → State × (Text ⊎ Environment)
  unfolding set_up given
  entered d env (some e) absolute = (initial, inl (codes "sandbox: docker unavailable: " ++ e))
  entered d env none (inl e) = (initial, inl e)
  entered d env none (inr dir) = given d dir (set_up d dir env initial)

  -- Prepare of Docker; its release is cleanup, after a success.
  unfoldable pub prepare : Docker → Text → List Text → State × (Text ⊎ Environment)
  unfolding entered
  prepare d dir env = entered d env w.look_path (w.absolute dir)
