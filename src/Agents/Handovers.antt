-- ===== src/Agents/Handovers.antt =====
-- A report on concrete findings, replies and artifacts.
use trilha_runner.Prelude.{
  ℕ, ◌≡◌, refl, false, List, [], ◌∷◌, ◌++◌, none, some, Text, codes, text_eq, contains,
  contains_byte, has_prefix, take, trim_space, trim_left, trim_right, is_space, to_lower, inr, map,
  Option,
}
use trilha_runner.Agents.{scan, scan_known, scan_patterns, replace_all}
use trilha_runner.Agents.Findings.{
  Finding, Artifact, Report, verdict, World, Handed, ext, base, trim_slashes, last_part,
  artifact_type, has_name, replace, contains_text, put, from_source, read_resolved, read_source,
  regular, finding, reply, artifact,
}
use trilha_runner.Agents.Handing.{
  add_finding, add_reply, name_of, content_of, written, accept, add_artifact, handle_report,
  handle_all, new_report, reply_for, replies_of,
}
use trilha_runner.Agents.Kept.{IsKept, handle_all-IsKept}
use trilha_runner.Agents.Attaching.{
  Seed, policy, changes_verdict, result_of, hunt_seed, verdict_of, attach_kind, attach_report,
}
use trilha_runner.Agents.Attached.{Names, IsAttached, attach_report-IsAttached}
use trilha_runner.Runs.{Kind, Work, review, hunt, read_only}

abbrev world : World
world = record {
  truncate = λ t n. take n t;
  max_title = 10;
  max_text = 20;
  max_findings = 1;
  max_reply = 9;
  max_bytes = 12;
  max_artifacts = 1;
  validate = λ f. none;
  validate_artifact = λ a. none;
  sha256 = λ t. t;
  resolve = λ path. inr path;
  rel = λ root path. some path;
  open_file = λ path. regular (codes "file");
  write = λ path content. none;
}

abbrev known_secrets : List Text
known_secrets = codes "swordfish" ∷ []

abbrev problem : Finding
problem = record {
  severity = codes "high";
  path = codes "./a.go";
  line_start = 3;
  line_end = 4;
  title = codes "swordfish!";
  why = [];
  repro = [];
  area = codes "x";
  style = [];
  found_by = [];
}

abbrev handed : List Handed
handed =
    finding (some problem)
    ∷ finding (some problem)
    ∷ verdict (codes "maybe")
    ∷ reply (codes " c1 ") (codes "done: swordfish")
    ∷ reply (codes "c9") (codes "no")
    ∷ artifact (codes "r.md") [] (codes "swordfish")
    ∷ artifact (codes "r.MD") [] (codes "fine")
    ∷ artifact [] (codes "/w/r.MD") []
    ∷ artifact (codes "i.png") [] (codes "text")
    ∷ []

unfoldable kept : Report
unfolding handle_all handle_report add_finding add_reply add_artifact accept written name_of
    content_of read_source read_resolved from_source base trim_slashes last_part ext artifact_type
    has_name replace contains_text put scan scan_known scan_patterns replace_all contains
    contains_byte has_prefix text_eq trim_space trim_left trim_right is_space to_lower
kept =
    handle_all world [] known_secrets handed
      (new_report (codes "c1" ∷ []) (codes "/r") (codes "/w" ∷ []))

one_finding : map (λ (f : Finding). f.title) kept.findings ≡ codes "[REDACTED]" ∷ []
unfolding kept
one_finding = refl

one_reply : kept.replies ≡ (codes "c1", codes "done: [RE") ∷ []
unfolding kept
one_reply = refl

one_artifact :
    map (λ (a : Artifact). a.path ++ codes ":" ++ a.copy) kept.artifacts ≡ codes "/r/r.MD:file" ∷ []
unfolding kept
one_artifact = refl

handle_all-IsKept_example : IsKept world [] known_secrets (codes "c1" ∷ []) (
    handle_all world [] known_secrets handed
      (new_report (codes "c1" ∷ []) (codes "/r") (codes "/w" ∷ [])))
handle_all-IsKept_example =
    handle_all-IsKept world [] known_secrets (codes "c1" ∷ []) (codes "/r") (codes "/w" ∷ []) handed

abbrev derived : ℕ → Text × Text
derived n = (codes "errors", codes "careful")

derived-Names : Names derived
derived-Names n = (refl, refl)

-- Work of a kind that may change nothing.
abbrev reading : Kind → Work
reading kind = record {
  kind = kind;
  is_fix = false;
  variant_index = 0;
  has_comments = false;
  foreign_code = false;
}

abbrev half_seed : Option Seed
half_seed = some (record { number = 7; area = codes "api"; style = [] })

hunted_area :
    map
      (λ (f : Finding). f.area)
      (attach_report derived (reading hunt) half_seed kept (result_of [])).findings
    ≡ codes "errors" ∷ []
unfolding kept attach_report attach_kind read_only hunt_seed replies_of reply_for
hunted_area = refl

reviewed_verdict :
    map (λ (f : Finding). f.area) kept.findings ≡ [] ∷ []
    × (attach_report derived (reading review) none kept (result_of [])).verdict
      ≡ some (changes_verdict, kept.findings)
unfolding kept attach_report attach_kind read_only verdict_of replies_of reply_for
reviewed_verdict = (refl, refl)

refused_review :
    attach_report derived (reading review) none kept (result_of policy) ≡ result_of policy
unfolding kept attach_report attach_kind read_only replies_of reply_for text_eq
refused_review = refl

attach_report-IsAttached_example :
    IsAttached world [] known_secrets
      (codes "c1" ∷ [])
      (reading hunt)
      []
      (handle_all world [] known_secrets handed
        (new_report (codes "c1" ∷ []) (codes "/r") (codes "/w" ∷ [])))
      (attach_report derived
        (reading hunt)
        half_seed
        (handle_all world [] known_secrets handed
          (new_report (codes "c1" ∷ []) (codes "/r") (codes "/w" ∷ [])))
        (result_of []))
attach_report-IsAttached_example =
    attach_report-IsAttached world [] known_secrets (codes "c1" ∷ []) (codes "/r") (codes "/w" ∷ [])
      handed derived (reading hunt) half_seed [] derived-Names

bases :
    map base (codes "/w/r.md" ∷ codes "r.md" ∷ codes "/w/a.md//" ∷ codes "//" ∷ [] ∷ [])
    ≡ codes "r.md" ∷ codes "r.md" ∷ codes "a.md" ∷ codes "/" ∷ codes "." ∷ []
unfolding base trim_slashes last_part contains_byte
bases = refl
