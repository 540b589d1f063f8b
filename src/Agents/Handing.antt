-- ===== src/Agents/Handing.antt =====
-- handleReport of runner/report.go: what the runner keeps of what an agent hands over.
use trilha_runner.Prelude.{
  ltb, leb, ◌==◌, Bool, true, false, ◌&&◌, ◌||◌, not, List, [], ◌∷◌, ◌++◌, ◌⊎◌, inl, inr, Option,
  none, some, is_some, Text, codes, text_eq, is_empty, has_prefix, trim_space, to_lower, itoa,
  length, if◌then◌else◌,
}
use trilha_runner.Agents.{Pattern, scan}
use trilha_runner.Agents.Findings.{
  Finding, Artifact, Report, verdict, World, Handed, ext, base, artifact_type, has_name, replace,
  trim_dot, contains_text, put, read_source, finding, reply, artifact,
}

module _ (w : World) (patterns : List Pattern) (secrets : List Text) where
  abbrev pub scrubbed : Text → Text
  scrubbed text = (scan patterns secrets text).0

  -- A finding as addFinding keeps it.
  abbrev pub cleaned : Finding → Finding
  cleaned f = record f {
    title = w.truncate (scrubbed (trim_space f.title)) w.max_title;
    why = w.truncate (scrubbed (trim_space f.why)) w.max_text;
    repro = w.truncate (scrubbed (trim_space f.repro)) w.max_text;
    path = trim_dot (trim_space f.path);
    area = [];
    style = [];
    found_by = [];
  }

  -- addFinding
  unfoldable pub add_finding : Option Finding → Report → Report
  add_finding none r = r
  add_finding (some f) r =
      if is_some (w.validate (cleaned f))
      then r
      else if leb w.max_findings (length r.findings)
      then record r { full = true }
      else record r { findings = r.findings ++ (cleaned f ∷ []) }

  -- addReply
  unfoldable pub add_reply : Text → Text → Report → Report
  unfolding contains_text put
  add_reply id text r =
      if not (contains_text r.comments (trim_space id)) || is_empty (trim_space text)
      then r
      else record r {
        replies =
            put (trim_space id) (w.truncate (scrubbed (trim_space text)) w.max_reply) r.replies;
      }

  unfoldable pub name_of : Text → Text → Text
  unfolding base
  name_of name source =
      if is_empty (trim_space name) && not (is_empty source) then base source else trim_space name

  unfoldable pub content_of : Report → Text → Text → Text ⊎ Text
  unfolding read_source
  content_of r source content = if is_empty source then inr content else read_source w r source

  abbrev pub starts_wrong : Option Text → Text → Bool
  starts_wrong none content = false
  starts_wrong (some magic) content = not (has_prefix content magic)

  abbrev pub entry_for : Report → Text → Text → Text → Artifact
  entry_for r name content_type content = record {
    name = name;
    content_type = content_type;
    size = length content;
    sha256 = w.sha256 content;
    path = r.artifact_dir ++ codes "/" ++ name;
    copy = content;
  }

  unfoldable pub written : Report → Artifact → Option Text → Report × Option Text
  unfolding replace has_name
  written r entry (some e) = (r, some e)
  written r entry none =
      if has_name entry.name r.artifacts
      then (record r { artifacts = replace entry.name entry r.artifacts }, none)
      else (record r { artifacts = r.artifacts ++ (entry ∷ []) }, none)

  -- addArtifact, once the content is read.
  unfoldable pub accept : Report → Artifact → Option Text → Report × Option Text
  unfolding has_name written has_prefix
  accept r entry magic =
      if length entry.copy == 0 || ltb w.max_bytes (length entry.copy)
      then (r, some (codes "size must be between 1 and " ++ itoa w.max_bytes ++ codes " bytes"))
      else if starts_wrong magic entry.copy
      then (r, some (codes "the file is not a " ++ entry.content_type))
      else if not (is_some magic) && (scan patterns secrets entry.copy).1
      then (
        r,
        some (
            codes
              "it contains a secret, so it stays off the cloud (the runner does not redact reports)"),
      )
      else if is_some (w.validate_artifact entry)
      then (r, w.validate_artifact entry)
      else if not (has_name entry.name r.artifacts) && leb w.max_artifacts (length r.artifacts)
      then (
        r,
        some (codes "a run publishes at most " ++ itoa w.max_artifacts ++ codes " artifacts"),
      )
      else if is_empty r.artifact_dir
      then (r, some (codes "this run has no artifact directory"))
      else written r entry (w.write entry.path entry.copy)

  abbrev pub accept_read : Report → Text → Text × Option Text → Text ⊎ Text → Report × Option Text
  accept_read r name (content_type, magic) (inl e) = (r, some e)
  accept_read r name (content_type, magic) (inr content) =
      accept r (entry_for r name content_type content) magic

  abbrev pub accept_type :
      Report → Text → Option (Text × Option Text) → Text ⊎ Text → Report × Option Text
  accept_type r name none content =
      (r, some (codes "the type must be .html, .md, .png, .jpg or .jpeg"))
  accept_type r name (some kind) content = accept_read r name kind content

  -- addArtifact; `some` is the error that is logged.
  unfoldable pub add_artifact : Text → Text → Text → Report → Report × Option Text
  unfolding accept name_of content_of artifact_type
  add_artifact name source content r =
      accept_type r (name_of name source) (artifact_type (to_lower (ext (name_of name source))))
        (content_of r source content)

  -- handleReport
  unfoldable pub handle_report : Handed → Report → Report
  unfolding add_finding add_reply add_artifact text_eq
  handle_report (finding f) r = add_finding f r
  handle_report (verdict v) r =
      if text_eq v (codes "pass") || text_eq v (codes "changes")
      then record r { verdict = v }
      else r
  handle_report (reply id text) r = add_reply id text r
  handle_report (artifact name source content) r = (add_artifact name source content r).0

  unfoldable pub handle_all : List Handed → Report → Report
  unfolding handle_report
  handle_all [] r = r
  handle_all (m ∷ ms) r = handle_all ms (handle_report m r)

abbrev pub new_report : List Text → Text → List Text → Report
new_report comments artifact_dir sources = record {
  findings = [];
  verdict = [];
  replies = [];
  comments = comments;
  artifacts = [];
  artifact_dir = artifact_dir;
  sources = sources;
  full = false;
}

unfoldable pub reply_for : Text → List (Text × Text) → Option Text
unfolding text_eq
reply_for id [] = none
reply_for id ((key, text) ∷ rest) =
    let later = reply_for id rest in if text_eq key id then some text else later

-- The replies of reportOf, in the order of the comments.
unfoldable pub replies_of : List Text → List (Text × Text) → List (Text × Text)
unfolding reply_for
replies_of [] replies = []
replies_of (id ∷ ids) replies =
    let rest = replies_of ids replies in
    elim (reply_for id replies) [ none ↦ rest | some text ↦ (id, text) ∷ rest ]
