-- ===== src/Drivers/Claude.antt =====
-- ClaudeCode of driver/exec.go: its arguments, its session and its credential.
use trilha_runner.Prelude.{
  ℕ, zero, suc, leb, ◌==◌, Bool, true, false, ◌&&◌, ◌||◌, not, List, [], ◌∷◌, ◌++◌, Option, none,
  some, Text, codes, is_empty, length, if◌then◌else◌,
}
use trilha_runner.Worker.Outbox.{is_alphanumeric}
use trilha_runner.Drivers.{Job, Provider, credential_env}
use trilha_runner.Drivers.Programs.{Host, Output, run_args_raw}

abbrev pub is_hex : ℕ → Bool
is_hex c = (leb b'0' c && leb c b'9') || (leb b'a' c && leb c b'f') || (leb b'A' c && leb c b'F')

-- A text of hexadecimal groups of these lengths, with dashes between them.
unfoldable pub has_groups : ℕ → List ℕ → Text → Bool
has_groups zero [] [] = true
has_groups zero [] (c ∷ s) = false
has_groups zero (n ∷ ns) [] = false
has_groups zero (n ∷ ns) (c ∷ s) = c == b'-' && has_groups n ns s
has_groups (suc left) ns [] = false
has_groups (suc left) ns (c ∷ s) = is_hex c && has_groups left ns s

-- ValidSessionID
unfoldable pub valid_session_id : Text → Bool
unfolding has_groups
valid_session_id id = has_groups 8 (4 ∷ 4 ∷ 4 ∷ 12 ∷ []) id

abbrev pub is_model_byte : ℕ → Bool
is_model_byte c = is_alphanumeric c || c == b'.' || c == b'_' || c == b':' || c == b'-'

unfoldable pub all_model_bytes : Text → Bool
all_model_bytes [] = true
all_model_bytes (c ∷ s) = is_model_byte c && all_model_bytes s

-- The regular expression reModel.
unfoldable pub is_model : Text → Bool
unfolding all_model_bytes
is_model [] = false
is_model (c ∷ s) = is_alphanumeric c && all_model_bytes s

-- claudeCodeArgs
unfoldable pub claude_code_args : Option Provider → List Text
unfolding is_model
claude_code_args none =
    codes "claude"
    ∷ codes "-p"
    ∷ codes "-"
    ∷ codes "--permission-mode"
    ∷ codes "acceptEdits"
    ∷ codes "--output-format"
    ∷ codes "json"
    ∷ []
claude_code_args (some ai) =
    (codes "claude" ∷ codes "-p" ∷ codes "-" ∷ codes "--permission-mode" ∷ codes "acceptEdits" ∷ [])
    ++ (if is_model ai.model then codes "--model" ∷ ai.model ∷ [] else [])
    ++ (codes "--output-format" ∷ codes "json" ∷ [])

unfoldable pub session_args : Host → Job → List Text
unfolding valid_session_id
session_args h job =
    if valid_session_id job.resume
    then codes "--resume" ∷ job.resume ∷ []
    else codes "--session-id" ∷ h.new_session ∷ []

abbrev pub settings_args : Option Text → List Text
settings_args none = []
settings_args (some path) = codes "--settings" ∷ path ∷ []

-- The arguments of Execute of ClaudeCode.
unfoldable pub claude_args : Host → Option Provider → Job → List Text
unfolding claude_code_args session_args
claude_args h ai job =
    claude_code_args ai
    ++ session_args h job
    ++ (if not (is_empty job.run_dir) && not (is_empty job.self) && length job.prefix == 0
        then settings_args (h.settings job.run_dir job.self)
        else [])

unfoldable pub with_credential : Option Provider → Job → Job
unfolding credential_env
with_credential ai job =
    if length job.prefix == 0 then record job { env = job.env ++ credential_env ai } else job

-- strings.Join with a space.
unfoldable pub joined_by_space : List Text → Text
joined_by_space [] = []
joined_by_space (t ∷ []) = t
joined_by_space (t ∷ u ∷ us) = t ++ (b' ' ∷ joined_by_space (u ∷ us))

-- Execute of ClaudeCode, but for the result that applyClaudeResult reads from the output.
unfoldable pub execute_claude : Host → Option Provider → Job → Output × Option Text
unfolding claude_args with_credential run_args_raw joined_by_space
execute_claude h ai job =
    let argv = claude_args h ai job in
    let (output, raw, e) = run_args_raw h ai (with_credential ai job) argv (joined_by_space argv) in
    (output, e)
