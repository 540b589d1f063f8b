-- ===== src/Sandbox.antt =====
-- sandbox/sandbox.go: the container that a run works in, by the commands given to docker.
pub mod Prepare
pub mod Tracking
pub mod Removal
pub mod Growth
pub mod Release
pub mod Secrets
pub mod Waiting
pub mod Manifest
mod Tests
use trilha_runner.Prelude.{
  ℕ, zero, suc, ◌+◌, ltb, leb, ◌==◌, Bool, true, false, ◌&&◌, ◌||◌, not, List, [], ◌∷◌, ◌++◌, ◌⊎◌,
  inl, inr, Option, none, some, is_some, Text, codes, text_eq, is_empty, contains, contains_byte,
  trim_space, to_lower, itoa, length, after, if◌then◌else◌,
}
use Prim.Native.String.{String}
use trilha_runner.Worker.Outbox.{is_name_byte}

pub record Service : Type 0 where
  pub name : Text
  pub image : Text
  pub env : List (Text × Text)  -- in the order of an iteration
  pub ready : List Text

pub record Docker : Type 0 where
  pub image : Text
  pub services : List Service
  pub binary : Text
  pub is_read_only : Bool

-- Env, what a given sandbox hands the driver.
pub record Environment : Type 0 where
  pub dir : Text
  pub env : List Text
  pub prefix : List Text

-- The end of a command: its error, its output, and the milliseconds it took.
pub record Reply : Type 0 where
  pub failure : Option Text
  pub output : Text
  pub took : ℕ

-- The file of the environment: its path or the error of its creation, the error of chmod, and that
-- of each line that is written.
pub record File : Type 0 where
  pub created : Text ⊎ Text
  pub chmod : Option Text
  pub print : ℕ → Option Text

-- Docker answers a command by the commands before it; `ended` is the error of the context after
-- some commands.
pub record World : Type 0 where
  pub look_path : Option Text
  pub absolute : Text → Text ⊎ Text  -- the error, or the path
  pub now : ℕ
  pub user : Option (ℕ × ℕ)  -- the user and the group, on a system that has them
  pub has_dockerfile : Text → Bool
  pub docker : List (List Text) → List Text → Reply
  pub ended : List (List Text) → Option Text
  pub file : File

-- The commands given so far, the containers to remove, and the file of the environment.
pub record State : Type 0 where
  pub done : List (List Text)
  pub containers : List Text
  pub file : Option Text
  pub removed : List Text

abbrev pub initial : State
initial = record { done = []; containers = []; file = none; removed = [] }

abbrev pub Action : Type 0
Action = State → State × Option Text

-- None.Prepare
abbrev pub prepare_none : Text → List Text → Environment
prepare_none dir env = record { dir = dir; env = env; prefix = [] }

-- first
abbrev pub first : Text → Text → Text
first value fallback = if is_empty (trim_space value) then fallback else value

-- safeName.ReplaceAllString(name, "-"); `dash` when the byte before was replaced.
unfoldable pub safe_from : Bool → Text → Text
safe_from dash [] = []
safe_from dash (c ∷ s) =
    let same = safe_from false s in
    let more = safe_from true s in
    if is_name_byte c then c ∷ same else if dash then more else b'-' ∷ more

-- workspaceMount
abbrev pub workspace_mount : Text → Bool → Text
workspace_mount dir read_only =
    codes "type=bind,src="
    ++ dir
    ++ codes ",dst=/workspace"
    ++ (if read_only then codes ",readonly" else [])

-- resourceLimits
abbrev pub resource_limits : List Text
resource_limits =
    codes "--read-only"
    ∷ codes "--security-opt"
    ∷ codes "no-new-privileges"
    ∷ codes "--pids-limit"
    ∷ codes "256"
    ∷ codes "--memory"
    ∷ codes "1g"
    ∷ codes "--cpus"
    ∷ codes "1"
    ∷ []

-- agentPrivileges
abbrev pub agent_privileges : Option (ℕ × ℕ) → List Text
agent_privileges none = codes "--cap-drop" ∷ codes "ALL" ∷ []
agent_privileges (some (user, group)) =
    codes "--cap-drop" ∷ codes "ALL" ∷ codes "--user" ∷ (itoa user ++ codes ":" ++ itoa group) ∷ []

abbrev pub tmpfs : String → List Text
tmpfs path = codes "--tmpfs" ∷ codes path ∷ []

abbrev pub env_arguments : List (Text × Text) → List Text
env_arguments [] = []
env_arguments ((key, value) ∷ rest) =
    codes "--env" ∷ (key ++ codes "=" ++ value) ∷ env_arguments rest

-- The error of a command, with its output.
abbrev pub told : Text → Reply → Option Text
told words r = elim r.failure [
  | none ↦ none
  | some e ↦ some (words ++ e ++ codes ": " ++ trim_space r.output)
]

-- The name of the container that a command creates.
unfoldable pub container_of : List Text → Option Text
unfolding text_eq
container_of (verb ∷ detached ∷ option ∷ name ∷ rest) =
    if text_eq verb (codes "run") then some name else none
container_of argv = none

abbrev pub ran : List Text → State → State
ran argv s = record s { done = s.done ++ (argv ∷ []) }

abbrev pub add_container : Text → State × Option Text → State × Option Text
add_container name (s, none) = (record s { containers = s.containers ++ (name ∷ []) }, none)
add_container name (s, some e) = (s, some e)

abbrev pub label : Text → List Text
label id = codes "--label" ∷ (codes "trilha.run=" ++ id) ∷ []

abbrev pub inspect_image : Text → List Text
inspect_image image = codes "image" ∷ codes "inspect" ∷ image ∷ []

abbrev pub pull : Text → List Text
pull image = codes "pull" ∷ image ∷ []

abbrev pub build : Text → Text → List Text
build image dir = codes "build" ∷ codes "-t" ∷ image ∷ dir ∷ []

abbrev pub inspect_container : Text → List Text
inspect_container name = codes "inspect" ∷ codes "--format" ∷ codes "{{.State.Running}}" ∷ name ∷ []

abbrev pub logs : Text → List Text
logs name = codes "logs" ∷ codes "--tail" ∷ codes "20" ∷ name ∷ []

module _ (w : World) where
  -- A command whose error ends the preparation.
  unfoldable pub order : Text → List Text → Action
  order words argv s = (ran argv s, told words (w.docker s.done argv))

  -- A container that is started, and then to be removed.
  unfoldable pub start_container : Text → Text → List Text → Action
  unfolding order
  start_container words name argv s = add_container name (order words argv s)

  -- ensureImage
  unfoldable pub ensure_image : Text → Text → Action
  unfolding order
  ensure_image image dir s =
      let inspected = ran (inspect_image image) s in
      let pulled = ran (pull image) inspected in
      let pulling = w.docker inspected.done (pull image) in
      if not (is_some (w.docker s.done (inspect_image image)).failure)
      then (inspected, none)
      else if not (is_some pulling.failure)
      then (pulled, none)
      else if w.has_dockerfile dir
      then order (codes "sandbox: build image " ++ image ++ codes ": ") (build image dir) pulled
      else (pulled, told (codes "sandbox: pull image " ++ image ++ codes ": ") pulling)

  -- What ensureUp adds of the container's output.
  abbrev pub last_words : Reply → Text
  last_words r =
      if is_some r.failure || is_empty (trim_space r.output)
      then []
      else codes ": " ++ trim_space r.output

  abbrev pub inspect_error : Text → Option Text → Option Text
  inspect_error name none = none
  inspect_error name (some e) = some (codes "sandbox: inspect " ++ name ++ codes ": " ++ e)

  -- ensureUp, with up
  unfoldable pub ensure_up : Text → Text → Action
  unfolding text_eq
  ensure_up name what s =
      let inspected = ran (inspect_container name) s in
      let r = w.docker s.done (inspect_container name) in
      if is_some r.failure
      then (inspected, inspect_error name r.failure)
      else if text_eq (trim_space r.output) (codes "true")
      then (inspected, none)
      else (
        ran (logs name) inspected,
        some (
            codes "sandbox: "
            ++ what
            ++ codes " exited instead of staying up (container "
            ++ name
            ++ codes ")"
            ++ last_words (w.docker inspected.done (logs name))),
      )

  -- waitReady: milliseconds pass, and the fuel is for the attempts.
  unfoldable pub wait_ready : ℕ → ℕ → Text → List Text → Action
  wait_ready zero elapsed last argv s = (s, some (codes "readiness timed out: " ++ last))
  wait_ready (suc left) elapsed last argv s =
      let r = w.docker s.done argv in
      let t = ran argv s in
      let rest = wait_ready left (elapsed + r.took + 500) (trim_space r.output) argv t in
      if not (ltb elapsed 90_000)
      then (s, some (codes "readiness timed out: " ++ last))
      else if not (is_some r.failure)
      then (t, none)
      else if is_some (w.ended t.done)
      then (t, w.ended t.done)
      else rest
