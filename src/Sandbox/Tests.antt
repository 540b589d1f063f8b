-- ===== src/Sandbox/Tests.antt =====
-- A sandbox with a database beside the agent.
use trilha_runner.Prelude.{
  ◌≡◌, ◌+◌, Bool, false, refl, List, [], ◌∷◌, ◌⊎◌, inr, none, some, Text, codes, text_eq, contains,
  contains_byte, has_prefix, trim_space, trim_left, trim_right, is_space, itoa, if◌then◌else◌, map,
}
use trilha_runner.Sandbox.{
  Service, Docker, Environment, World, State, initial, safe_from, order, start_container,
  ensure_image, ensure_up, wait_ready,
}
use trilha_runner.Sandbox.Prepare.{
  service_name, run_service, ready_attempts, write_lines, write_environment_file, remove_all,
  cleanup, wait_service, start_service, start_services, keep_file, start_agent, set_up, given,
  entered, prepare,
}
use trilha_runner.Sandbox.Release.{Ends, prepare-Ends}
use trilha_runner.Sandbox.Secrets.{prepare-same}
use trilha_runner.Sandbox.Waiting.{wait_ready_lem}

abbrev database : Service
database = record {
  name = codes "my db";
  image = codes "postgres";
  env = (codes "POSTGRES_PASSWORD", codes "dev") ∷ [];
  ready = codes "pg_isready" ∷ [];
}

abbrev boxed : Docker
boxed = record {
  image = codes "golang";
  services = database ∷ [];
  binary = [];
  is_read_only = false;
}

abbrev starts : List Text → Text → Bool
unfolding text_eq
starts [] verb = false
starts (word ∷ words) verb = text_eq word verb

-- A docker whose containers are up, but that fails one verb.
abbrev world : Text → World
unfolding text_eq
world broken = record {
  look_path = none;
  absolute = λ dir. inr dir;
  now = 7;
  user = some (1000, 100);
  has_dockerfile = λ dir. false;
  docker = λ past argv. record {
    failure = if starts argv broken then some (codes "exit status 1") else none;
    output = codes "true";
    took = 20;
  };
  ended = λ past. none;
  file = record { created = inr (codes "/tmp/env"); chmod = none; print = λ n. none };
}

abbrev secret : List Text
secret = codes "TOKEN=a" ∷ []

abbrev other : List Text
other = codes "TOKEN=bb" ∷ []

abbrev verb_of : List Text → Text
verb_of [] = []
verb_of (word ∷ words) = word

abbrev verbs : State × (Text ⊎ Environment) → List Text
verbs (s, end) = map verb_of s.done

unfoldable prepared_with : Text → State × (Text ⊎ Environment)
unfolding text_eq prepare entered set_up given cleanup remove_all order ensure_image ensure_up
    start_container wait_ready wait_service start_service start_services keep_file start_agent
    write_environment_file write_lines service_name safe_from run_service contains contains_byte
    has_prefix trim_space trim_left trim_right is_space itoa
prepared_with broken = prepare (world broken) boxed (codes "/w") secret

commands :
    verbs (prepared_with (codes "none"))
    ≡ codes "network"
      ∷ codes "image"
      ∷ codes "image"
      ∷ codes "run"
      ∷ codes "inspect"
      ∷ codes "exec"
      ∷ codes "run"
      ∷ codes "inspect"
      ∷ []
unfolding prepared_with
commands = refl

build_fails :
    verbs (prepared_with (codes "run"))
    ≡ codes "network" ∷ codes "image" ∷ codes "image" ∷ codes "run" ∷ codes "network" ∷ []
unfolding prepared_with
build_fails = refl

sanitized_name : (prepared_with (codes "inspect")).0.containers ≡ codes "trilha-7-my-db" ∷ []
unfolding prepared_with
sanitized_name = refl

prepare-Ends_example :
    Ends (world (codes "exec")) boxed (prepare (world (codes "exec")) boxed (codes "/w") secret)
prepare-Ends_example = prepare-Ends (world (codes "exec")) boxed (codes "/w") secret

prepare-same_example :
    prepare (world []) boxed (codes "/w") secret ≡ prepare (world []) boxed (codes "/w") other
unfolding contains_byte
prepare-same_example =
    prepare-same (world []) boxed (codes "/w") secret other refl (refl, tt) (refl, tt)

wait_ready_lem_example :
    wait_ready (world (codes "exec")) (ready_attempts + 5) 0 [] (codes "exec" ∷ []) initial
    ≡ wait_ready (world (codes "exec")) ready_attempts 0 [] (codes "exec" ∷ []) initial
wait_ready_lem_example = wait_ready_lem (world (codes "exec")) 5 (codes "exec" ∷ []) initial
