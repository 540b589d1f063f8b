-- ===== src/Agents/Attaching.antt =====
-- attachReport of runner/work.go: what an agent handed over, put into the result of its run.
use trilha_runner.Prelude.{
  ℕ, ◌==◌, ◌&&◌, ◌||◌, List, [], Option, none, some, Text, codes, text_eq, is_empty, length, map,
  if◌then◌else◌,
}
use trilha_runner.Runs.{Kind, Work, implement, review, hunt, other, read_only}
use trilha_runner.Agents.Findings.{Finding, Artifact, Report}
use trilha_runner.Agents.Handing.{replies_of}

-- execution.HuntSeed
pub record Seed : Type 0 where
  pub number : ℕ
  pub area : Text
  pub style : Text

-- runner.Result: the failure class, and the fields that attachReport sets.
pub record ReportResult : Type 0 where
  pub failure_class : Text
  pub findings : List Finding
  pub verdict : Option (Text × List Finding)  -- Review
  pub replies : List (Text × Text)  -- ReviewReplies
  pub artifacts : List Artifact

abbrev pub policy : Text
policy = codes "policy"

abbrev pub pass_verdict : Text
pass_verdict = codes "pass"

abbrev pub changes_verdict : Text
changes_verdict = codes "changes"

-- A result before attachReport.
abbrev pub result_of : Text → ReportResult
result_of failure_class = record {
  failure_class = failure_class;
  findings = [];
  verdict = none;
  replies = [];
  artifacts = [];
}

-- The area and the style of a hunt; `derive` is execution.NewHuntSeed.
unfoldable pub hunt_seed : (ℕ → Text × Text) → Option Seed → Text × Text
hunt_seed derive none = derive 0
hunt_seed derive (some s) =
    if is_empty s.area || is_empty s.style then derive s.number else (s.area, s.style)

abbrev pub seeded : Text × Text → Finding → Finding
seeded (area, style) f = record f { area = area; style = style }

-- The verdict of a review: the agent's, or the one that its findings call for.
unfoldable pub verdict_of : Report → Text
verdict_of r =
    let derived = if length r.findings == 0 then pass_verdict else changes_verdict in
    if is_empty r.verdict then derived else r.verdict

unfoldable pub attach_kind :
    (ℕ → Text × Text) → Kind → Option Seed → Report → ReportResult → ReportResult
unfolding hunt_seed verdict_of
attach_kind derive review seed r res = record res { verdict = some (verdict_of r, r.findings) }
attach_kind derive hunt seed r res = record res {
  findings = map (seeded (hunt_seed derive seed)) r.findings;
}
attach_kind derive implement seed r res = res
attach_kind derive other seed r res = res

-- attachReport
unfoldable pub attach_report :
    (ℕ → Text × Text) → Work → Option Seed → Report → ReportResult → ReportResult
unfolding read_only replies_of attach_kind
attach_report derive work seed r res =
    if text_eq res.failure_class policy && read_only work
    then record res { replies = [] }
    else attach_kind derive work.kind seed r
        (record res { replies = replies_of r.comments r.replies; artifacts = r.artifacts })
