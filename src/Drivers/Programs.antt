-- ===== src/Drivers/Programs.antt =====
-- Exec and runArgsRaw of driver/exec.go: the program that a driver starts, with its arguments and its
-- environment.
use trilha_runner.Prelude.{
  ℕ, ◌==◌, List, [], ◌∷◌, ◌++◌, Option, none, some, Text, codes, is_empty, length, ℤ, if◌then◌else◌,
}
use trilha_runner.Deployer.{safe_environment, show_int}
use trilha_runner.Drivers.{Job, Provider, redact_secret, tail}

-- A program that is started, and its end: with exit code 0, with another, or never.
pub record Start : Type 0 where
  pub argv : List Text
  pub dir : Text
  pub stdin : Text
  pub environment : List Text

pub data End : Type 0 where
  succeeded : End
  exited : ℤ → End
  failed : Text → End

pub record Host : Type 0 where
  pub lookup_env : Text → Option Text
  pub run : Start → Text × End
  pub split : Text → List Text  -- task.SplitCommand
  pub settings : Text → Text → Option Text  -- the path that writeClaudeSettings writes
  pub new_session : Text
  pub home : Option Text
  pub max_output : ℕ  -- task.MaxOutput
  pub timeout : Option Text  -- the note of a check that ran out of time

pub record Output : Type 0 where
  pub text : Text
  pub meta : List (Text × Text)

-- The names of execEnvironment and safeCheckEnv.
abbrev pub agent_names : List Text
agent_names =
    codes "PATH"
    ∷ codes "HOME"
    ∷ codes "USER"
    ∷ codes "LOGNAME"
    ∷ codes "TMPDIR"
    ∷ codes "TMP"
    ∷ codes "TEMP"
    ∷ codes "LANG"
    ∷ codes "LC_ALL"
    ∷ codes "CGO_ENABLED"
    ∷ codes "GOCACHE"
    ∷ codes "GOMODCACHE"
    ∷ codes "GOPATH"
    ∷ codes "GOPROXY"
    ∷ codes "GOSUMDB"
    ∷ codes "GOTOOLCHAIN"
    ∷ codes "SSL_CERT_FILE"
    ∷ codes "SSL_CERT_DIR"
    ∷ []

abbrev pub check_names : List Text
check_names =
    codes "PATH"
    ∷ codes "HOME"
    ∷ codes "TMPDIR"
    ∷ codes "TMP"
    ∷ codes "TEMP"
    ∷ codes "LANG"
    ∷ codes "LC_ALL"
    ∷ codes "CGO_ENABLED"
    ∷ codes "GOCACHE"
    ∷ codes "GOMODCACHE"
    ∷ codes "GOPATH"
    ∷ codes "GOTOOLCHAIN"
    ∷ []

-- execEnvironment
unfoldable pub exec_environment : Host → List Text
unfolding safe_environment
exec_environment h = safe_environment h.lookup_env agent_names

-- safeCheckEnv
unfoldable pub safe_check_env : Host → List Text
unfolding safe_environment
safe_check_env h =
    safe_environment h.lookup_env check_names
    ++ (codes "GOPROXY=off" ∷ codes "GOSUMDB=off" ∷ codes "GIT_TERMINAL_PROMPT=0" ∷ [])

-- A command through the prefix of a sandbox.
abbrev pub entering : List Text → List Text → List Text
entering prefix argv = prefix ++ argv

abbrev pub secret_of : Option Provider → Text
secret_of none = []
secret_of (some ai) = ai.credential

abbrev pub first_word : List Text → Text
first_word [] = []
first_word (t ∷ ts) = t

abbrev pub exec_meta : Text → End → List (Text × Text)
exec_meta command succeeded =
    (codes "driver", codes "exec")
    ∷ (codes "command", command)
    ∷ (codes "exit_code", codes "0")
    ∷ []
exec_meta command (exited code) =
    (codes "driver", codes "exec")
    ∷ (codes "command", command)
    ∷ (codes "exit_code", show_int code)
    ∷ []
exec_meta command (failed e) = (codes "driver", codes "exec") ∷ (codes "command", command) ∷ []

abbrev pub exec_error : Text → End → Option Text
exec_error program succeeded = none
exec_error program (exited code) =
    some (codes "exec: " ++ program ++ codes " exited " ++ show_int code)
exec_error program (failed e) = some (codes "exec: " ++ e)

abbrev pub own_environment : Job → List Text
own_environment job =
    if length job.prefix == 0
    then (codes "TRILHA_TASK=" ++ job.task) ∷ (codes "TRILHA_WORKTREE=" ++ job.dir) ∷ job.env
    else []

-- The program that runArgsRaw starts for a job.
unfoldable pub start_of : Host → Job → List Text → Start
unfolding exec_environment
start_of h job argv = record {
  argv = entering job.prefix argv;
  dir = job.dir;
  stdin = job.prompt;
  environment = exec_environment h ++ own_environment job;
}

-- runArgsRaw, of one argument or more: the output, all that was written, and the error.
unfoldable pub run_args_raw :
    Host → Option Provider → Job → List Text → Text → Output × Text × Option Text
unfolding start_of redact_secret
run_args_raw h ai job argv command =
    let (raw, end) = h.run (start_of h job argv) in
    (
      record { text = tail (redact_secret (secret_of ai) raw); meta = exec_meta command end },
      raw,
      exec_error (first_word argv) end,
    )

-- Execute of Exec; `manifest` is the command of the agent's manifest.
unfoldable pub execute_exec : Host → Option Provider → Job → Text → Output × Option Text
unfolding run_args_raw
execute_exec h ai job manifest =
    let command = if is_empty job.command then manifest else job.command in
    let (output, raw, e) = run_args_raw h ai job (h.split command) command in
    if length (h.split command) == 0
    then (
      record { text = []; meta = [] },
      some (codes "exec: no command: set `command:` in the agent manifest or pass --cmd"),
    )
    else (output, e)
