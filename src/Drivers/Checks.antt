-- ===== src/Drivers/Checks.antt =====
-- runSandboxedCheck of driver/ai.go.
use trilha_runner.Prelude.{
  ◌==◌, Bool, true, false, List, [], Option, none, some, Text, codes, is_empty, length, ℤ, pos,
  negsuc, if◌then◌else◌,
}
use trilha_runner.Agents.{replace_all}
use trilha_runner.Deployer.{limit}
use trilha_runner.Drivers.Programs.{End, Host, safe_check_env, entering, succeeded, exited, failed}

-- The result of a check for the model.
pub record Evidence : Type 0 where
  pub exit_code : ℤ
  pub passed : Bool
  pub output : Text
  pub note : Text

-- redactCheckOutput. An empty root, which no worktree has, is not replaced.
unfoldable pub redact_check_output : Host → Text → Text → Text
unfolding replace_all limit
redact_check_output h root value =
    let rootless = if is_empty root then value else replace_all root (codes "[worktree]") 0 value in
    limit h.max_output (elim h.home [
      | none ↦ rootless
      | some home ↦ if is_empty home then rootless else replace_all home (codes "[home]") 0 rootless
    ])

abbrev pub minus_one : ℤ
minus_one = negsuc 0

-- How runSandboxedCheck judges the end of a check.
abbrev pub judged : Option Text → Text → End → Evidence
judged timeout output succeeded = record {
  exit_code = pos 0;
  passed = true;
  output = output;
  note = [];
}
judged (some note) output _ = record {
  exit_code = minus_one;
  passed = false;
  output = output;
  note = note;
}
judged none output (exited code) = record {
  exit_code = code;
  passed = false;
  output = output;
  note = [];
}
judged none output (failed e) = record {
  exit_code = minus_one;
  passed = false;
  output = output;
  note = e;
}

-- runSandboxedCheck
unfoldable pub run_sandboxed_check : Host → Text → Text → List Text → Evidence
unfolding safe_check_env redact_check_output
run_sandboxed_check h command root prefix =
    let (raw, end) = h.run (record {
      argv = entering prefix (h.split command);
      dir = root;
      stdin = [];
      environment = safe_check_env h;
    }) in
    if length (h.split command) == 0
    then record { exit_code = minus_one; passed = false; output = []; note = codes "empty command" }
    else judged h.timeout (redact_check_output h root raw) end
