-- ===== src/Deployer.antt =====
-- deployer/deployer.go: a deployment by a profile, from its steps to the health checks and the
-- rollback.
pub mod Commands
pub mod Reverting
pub mod Health
pub mod Execute
pub mod Plan
pub mod Processes
pub mod Checking
pub mod Outcome
mod Tests
use trilha_runner.Prelude.{
  ℕ, zero, suc, ◌+◌, ◌-◌, ◌*◌, ◌%◌, ◌^◌, ltb, leb, ◌==◌, Bool, true, false, ◌&&◌, ◌||◌, not, List,
  [], ◌∷◌, ◌++◌, Option, none, some, is_some, Text, codes, text_eq, is_empty, contains_byte,
  has_prefix, strip_suffix, trim_space, to_lower, ℤ, pos, negsuc, itoa, length, drop, if◌then◌else◌,
}
use trilha_runner.Agents.{mask, replace_all}

pub record Step : Type 0 where
  pub name : Text
  pub argv : List Text
  pub on_fail : Text

pub record Migration : Type 0 where
  pub argv : List Text
  pub downgrade : List Text
  pub is_reversible : Bool

pub record HealthCheck : Type 0 where
  pub name : Text
  pub url : Text
  pub timeout_seconds : ℤ

pub record Profile : Type 0 where
  pub deploy : List Text
  pub rollback : List Text
  pub steps : List Step
  pub migrate : Option Migration
  pub health : List HealthCheck
  pub health_url : Text
  pub timeout_seconds : ℤ

pub record Result : Type 0 where
  pub passed : Bool
  pub log : Text
  pub health : Text
  pub error : Text

-- queue.DeploymentWork; a map is the list of its entries, in the order of an iteration.
pub record Work : Type 0 where
  pub id : Text
  pub project : Text
  pub environment : Text
  pub profile : Text
  pub action : Text
  pub revision : Text
  pub previous_revision : Text
  pub secrets : List (Text × Text)

-- A process that was started, and what came of it: the failure is its exit code, -1 when it did not
-- exit, and the text of the error.
pub record Ran : Type 0 where
  pub argv : List Text
  pub environment : List Text

pub record Process : Type 0 where
  pub output : Text
  pub duration : Text
  pub failure : Option (ℤ × Text)

-- The answer to a GET: no request can be made of the URL, no answer comes, or a status.
pub data Reply : Type 0 where
  no_request : Text → Reply
  no_answer : Text → Text → Reply  -- the duration and the error
  status : Text → ℕ → Text → Reply  -- the duration, the code and its line

-- Processes and servers, which answer by the time that is left to the whole deployment and by all
-- that was done before.
pub record World : Type 0 where
  pub lookup_env : Text → Option Text
  pub run : ℕ → List Ran → Ran → Process
  pub get : ℕ → List Ran → List (Text × ℕ) → Text → Reply

pub record State : Type 0 where
  pub timeout : ℕ
  pub log : Text
  pub ran : List Ran
  pub checked : List (Text × ℕ)  -- the URLs, with the timeout of each

-- A count of seconds as a time.Duration, in the 64 bits of its nanoseconds.
unfoldable pub nanoseconds : ℤ → ℕ
nanoseconds (pos n) = n * 1_000_000_000 % 2 ^ 64
nanoseconds (negsuc n) = (2 ^ 64 - (n + 1) * 1_000_000_000 % 2 ^ 64) % 2 ^ 64

-- A timeout that is not positive or above the maximum gives way to the fallback; a negative one has
-- the highest bit, and lies above every maximum.
unfoldable pub bounded_timeout : ℕ → ℕ → ℤ → ℕ
unfolding nanoseconds
bounded_timeout maximum fallback seconds =
    let timeout = nanoseconds seconds in
    if timeout == 0 || ltb maximum timeout then fallback else timeout

abbrev pub show_int : ℤ → Text
show_int (pos n) = itoa n
show_int (negsuc n) = b'-' ∷ itoa (n + 1)

-- redact
unfoldable pub redact : List (Text × Text) → Text → Text
redact [] value = value
redact ((name, secret) ∷ secrets) value =
    redact secrets (if is_empty secret then value else replace_all secret mask 0 value)

-- limit
unfoldable pub limit : ℕ → Text → Text
limit maximum value =
    if leb (length value) maximum then value else drop (length value - maximum) value

-- deployResult
unfoldable pub deploy_result : List (Text × Text) → State → Text → Option Text → Result
unfolding redact limit
deploy_result secrets s health none = record {
  passed = true;
  log = limit (2 ^ 20) (redact secrets s.log);
  health = health;
  error = [];
}
deploy_result secrets s health (some e) = record {
  passed = false;
  log = limit (2 ^ 20) (redact secrets s.log);
  health = health;
  error = redact secrets e;
}

-- A result with an error alone.
abbrev pub refusal : Text → Result
refusal e = record { passed = false; log = []; health = []; error = e }

abbrev is_upper : ℕ → Bool
is_upper c = leb b'A' c && leb c b'Z'

unfoldable pub all_variable_bytes : Text → Bool
all_variable_bytes [] = true
all_variable_bytes (c ∷ s) =
    (is_upper c || (leb b'0' c && leb c b'9') || c == b'_') && all_variable_bytes s

-- The regular expression environmentVariable.
unfoldable pub is_variable : Text → Bool
unfolding all_variable_bytes
is_variable [] = false
is_variable (c ∷ s) = is_upper c && all_variable_bytes s && leb (length s) 127

unfoldable pub has_bad_secret : List (Text × Text) → Bool
unfolding is_variable
has_bad_secret [] = false
has_bad_secret ((name, value) ∷ secrets) =
    not (is_variable name) || contains_byte value 0 || has_bad_secret secrets

abbrev pub entry : Text → Text → Text
entry name value = name ++ codes "=" ++ value

unfoldable pub secret_entries : List (Text × Text) → List Text
secret_entries [] = []
secret_entries ((name, value) ∷ secrets) = entry name value ∷ secret_entries secrets

abbrev pub inherited : List Text
inherited = codes "HOME" ∷ codes "LANG" ∷ codes "LC_ALL" ∷ codes "PATH" ∷ codes "TMPDIR" ∷ []

-- safeEnvironment
unfoldable pub safe_environment : (Text → Option Text) → List Text → List Text
safe_environment lookup [] = []
safe_environment lookup (name ∷ names) =
    let rest = safe_environment lookup names in
    elim (lookup name) [ none ↦ rest | some value ↦ entry name value ∷ rest ]

abbrev pub own_entries : Work → List Text
own_entries work =
    entry (codes "TRILHA_DEPLOYMENT_ID") work.id
    ∷ entry (codes "TRILHA_PROJECT") work.project
    ∷ entry (codes "TRILHA_ENVIRONMENT") work.environment
    ∷ entry (codes "TRILHA_DEPLOY_ACTION") work.action
    ∷ entry (codes "TRILHA_REVISION") work.revision
    ∷ entry (codes "TRILHA_PREVIOUS_REVISION") work.previous_revision
    ∷ []

-- deploymentEnvironment; `none` is its error.
unfoldable pub deployment_environment : (Text → Option Text) → Work → Option (List Text)
unfolding safe_environment has_bad_secret secret_entries
deployment_environment lookup work =
    if has_bad_secret work.secrets
    then none
    else some (safe_environment lookup inherited ++ own_entries work ++ secret_entries work.secrets)

-- replaceEnvironment
unfoldable pub replace_environment : List Text → Text → Text → List Text
replace_environment [] name value = entry name value ∷ []
replace_environment (e ∷ es) name value =
    let rest = replace_environment es name value in
    if has_prefix e (name ++ codes "=") then entry name value ∷ es else e ∷ rest

abbrev is_switch : Step → Bool
is_switch step = text_eq (to_lower (trim_space step.name)) (codes "switch")

unfoldable pub switch_index : List Step → Option ℕ
switch_index [] = none
switch_index (step ∷ steps) =
    let later = switch_index steps in
    if is_switch step then some 0 else elim later [ none ↦ none | some n ↦ some (suc n) ]

-- migrationPosition
unfoldable pub migration_position : List Step → ℕ
unfolding switch_index
migration_position steps = elim (switch_index steps) [
  | some n ↦ n
  | none ↦ if leb (length steps) 1 then 0 else length steps - 1
]

-- The lines that runLogged writes.
abbrev pub output_lines : List (Text × Text) → Text → Text
output_lines secrets [] = []
output_lines secrets (c ∷ s) =
    redact secrets (c ∷ s)
    ++ (if is_some (strip_suffix (c ∷ s) (codes "\n")) then [] else codes "\n")

abbrev pub exit_code : Option (ℤ × Text) → ℤ
exit_code none = pos 0
exit_code (some (code, e)) = code

abbrev pub run_lines : List (Text × Text) → Text → Process → Text
run_lines secrets name p =
    name
    ++ codes " duration="
    ++ p.duration
    ++ codes " exit="
    ++ show_int (exit_code p.failure)
    ++ codes "\n"
    ++ output_lines secrets p.output

abbrev pub run_error : Text → Option (ℤ × Text) → Option Text
run_error name none = none
run_error name (some (code, e)) = some (name ++ codes " failed: " ++ e)

abbrev pub no_argv : List Text → Bool
no_argv [] = true
no_argv (program ∷ arguments) = is_empty (trim_space program)
