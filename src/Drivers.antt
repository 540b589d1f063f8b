-- ===== src/Drivers.antt =====
-- driver/driver.go and driver/ai.go: what a driver may reach, and what it keeps of an output.
pub mod Hosts
pub mod Claude
pub mod Checks
pub mod Tools
pub mod Sessions
pub mod Programs
mod Tests
use trilha_runner.Prelude.{
  quote, ℕ, ◌+◌, ◌-◌, ltb, leb, ◌==◌, Bool, true, false, ◌&&◌, ◌||◌, not, List, [], ◌∷◌, ◌++◌,
  Option, none, some, is_some, Text, codes, text_eq, is_empty, has_prefix, contains, contains_byte,
  strip_suffix, trim_space, to_lower, length, drop, if◌then◌else◌,
}
use trilha_runner.Agents.{mask, replace_all}

pub data Kind : Type 0 where
  run_kind review hunt repair : Kind

-- The fields of Job that the model reads.
pub record Job : Type 0 where
  pub task : Text
  pub prompt : Text
  pub dir : Text
  pub command : Text
  pub env : List Text
  pub allowed_checks : List Text
  pub prefix : List Text
  pub is_heard : Bool  -- Signal is set
  pub run_dir : Text
  pub self : Text
  pub resume : Text
  pub kind : Kind
  pub is_read_only : Bool
  pub reply_to : List Text

-- AIConfig
pub record Provider : Type 0 where
  pub name : Text
  pub base_url : Text
  pub model : Text
  pub credential : Text
  pub allowed_hosts : List Text

-- strings.HasSuffix
unfoldable pub has_suffix : Text → Text → Bool
unfolding strip_suffix
has_suffix s p = is_some (strip_suffix s p)

-- CredentialEnv
unfoldable pub credential_env : Option Provider → List Text
unfolding contains to_lower
credential_env none = []
credential_env (some ai) =
    if is_empty ai.credential
    then []
    else if contains (to_lower ai.name) (codes "oauth")
    then (codes "CLAUDE_CODE_OAUTH_TOKEN=" ++ ai.credential) ∷ []
    else (codes "ANTHROPIC_API_KEY=" ++ ai.credential) ∷ []

-- redactSecrets of one secret.
unfoldable pub redact_secret : Text → Text → Text
unfolding replace_all
redact_secret secret value = if is_empty secret then value else replace_all secret mask 0 value

abbrev pub max_output : ℕ
max_output = 262_144

-- tail
abbrev pub tail : Text → Text
tail s =
    if ltb max_output (length s)
    then (b'[' ∷ 226 ∷ 128 ∷ 166 ∷ b']' ∷ 10 ∷ []) ++ drop (length s - max_output) s
    else s

-- The test of one candidate of validateAllowedHost, for a host in lower case.
unfoldable pub matches_host : Text → Text → Bool
unfolding text_eq has_prefix has_suffix
matches_host host raw =
    let candidate = to_lower (trim_space raw) in
    text_eq candidate host
    || (has_prefix candidate (codes "*.") && has_suffix host (drop 1 candidate))

unfoldable pub some_host : Text → List Text → Bool
unfolding matches_host
some_host host [] = false
some_host host (candidate ∷ candidates) = matches_host host candidate || some_host host candidates

-- validateAllowedHost, of the host name that net/url finds in the URL, if it can parse it.
unfoldable pub validate_allowed_host : Option Text → List Text → Option Text
unfolding some_host to_lower quote
validate_allowed_host parsed [] = none
validate_allowed_host none (candidate ∷ candidates) = some (codes "AI base URL is invalid")
validate_allowed_host (some name) (candidate ∷ candidates) =
    if is_empty name
    then some (codes "AI base URL is invalid")
    else if some_host (to_lower name) (candidate ∷ candidates)
    then none
    else some (codes "AI host " ++ quote (to_lower name) ++ codes " is not allowed")
