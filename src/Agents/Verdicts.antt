-- ===== src/Agents/Verdicts.antt =====
-- The verdict that an agent hands over, in runner/report.go.
use trilha_runner.Prelude.{
  true, ◌||◌, List, length, ◌==◌, [], ◌∷◌, Option, none, some, inl, inr, ◌⊎◌, to_lower, Text,
  text_eq, is_empty, if_ind, ◌≡◌, refl, sym, subst, arith,
}
use trilha_runner.Agents.{Pattern}
use trilha_runner.Agents.Findings.{
  Artifact, Report, verdict, World, Handed, has_name, artifact_type, ext, finding, reply, artifact,
}
use trilha_runner.Agents.Handing.{
  add_finding, add_reply, written, accept, accept_type, add_artifact, handle_report, handle_all,
  name_of, content_of, entry_for,
}
use trilha_runner.Agents.Attaching.{pass_verdict, changes_verdict, verdict_of}

-- A verdict of the protocol, or none.
abbrev pub IsVerdict : Text → Type 0
IsVerdict v = is_empty v || (text_eq v pass_verdict || text_eq v changes_verdict) ≡ true

module _ (w : World) (patterns : List Pattern) (secrets : List Text) where
  written-verdict :
      (r : Report) (entry : Artifact) (e : Option Text)
      → (written w patterns secrets r entry e).0.verdict ≡ r.verdict
  unfolding written
  written-verdict r entry (some e) = refl
  written-verdict r entry none =
      if_ind (λ (x : Report × Option Text). x.0.verdict ≡ r.verdict)
        (has_name entry.name r.artifacts) (λ _. refl) (λ _. refl)

  accept-verdict :
      (r : Report) (entry : Artifact) (magic : Option Text)
      → (accept w patterns secrets r entry magic).0.verdict ≡ r.verdict
  unfolding accept
  accept-verdict r entry magic =
      ground (arith, written-verdict r entry (w.write entry.path entry.copy))

  accept_type-verdict :
      (r : Report) (name : Text) (kind : Option (Text × Option Text)) (content : Text ⊎ Text)
      → (accept_type w patterns secrets r name kind content).0.verdict ≡ r.verdict
  accept_type-verdict r name none content = refl
  accept_type-verdict r name (some (content_type, magic)) (inl failure) = refl
  accept_type-verdict r name (some (content_type, magic)) (inr content) =
      accept-verdict r (entry_for w patterns secrets r name content_type content) magic

  handle_report-IsVerdict :
      (m : Handed) (r : Report)
      → IsVerdict r.verdict
      → IsVerdict (handle_report w patterns secrets m r).verdict
  unfolding handle_report add_finding add_reply add_artifact
  handle_report-IsVerdict (finding none) r h = h
  handle_report-IsVerdict (finding (some f)) r h =
      let same : (add_finding w patterns secrets (some f) r).verdict ≡ r.verdict = ground arith in
      subst (λ v. IsVerdict v) (sym same) h
  handle_report-IsVerdict (verdict v) r h =
      if_ind (λ (x : Report). IsVerdict x.verdict)
        (text_eq v pass_verdict || text_eq v changes_verdict) (λ e. ground (arith, e)) (λ _. h)
  handle_report-IsVerdict (reply id text) r h =
      let same : (add_reply w patterns secrets id text r).verdict ≡ r.verdict = ground arith in
      subst (λ v. IsVerdict v) (sym same) h
  handle_report-IsVerdict (artifact name source content) r h =
      let chosen = name_of w patterns secrets name source in
      subst (λ v. IsVerdict v)
        (sym (
          accept_type-verdict r chosen (artifact_type (to_lower (ext chosen)))
            (content_of w patterns secrets r source content)))
        h

  pub handle_all-IsVerdict :
      (ms : List Handed) (r : Report)
      → IsVerdict r.verdict
      → IsVerdict (handle_all w patterns secrets ms r).verdict
  unfolding handle_all
  handle_all-IsVerdict [] r h = h
  handle_all-IsVerdict (m ∷ ms) r h =
      handle_all-IsVerdict ms (handle_report w patterns secrets m r) (handle_report-IsVerdict m r h)

pub verdict_of-IsVerdict :
    (r : Report)
    → IsVerdict r.verdict
    → (text_eq (verdict_of r) pass_verdict || text_eq (verdict_of r) changes_verdict ≡ true)
unfolding verdict_of text_eq
verdict_of-IsVerdict r h =
    if_ind (λ (v : Text). text_eq v pass_verdict || text_eq v changes_verdict ≡ true)
      (is_empty r.verdict)
      (λ _.
        if_ind (λ (v : Text). text_eq v pass_verdict || text_eq v changes_verdict ≡ true)
          (length r.findings == 0) (λ _. refl) (λ _. refl))
      (λ given. ground (arith, given, h))

pub verdict_of-given :
    (r : Report)
    → (verdict_of r ≡ r.verdict) ⊎ (text_eq (verdict_of r) pass_verdict ≡ (length r.findings == 0))
unfolding verdict_of text_eq
verdict_of-given r =
    let P = λ (v : Text). (v ≡ r.verdict) ⊎ (text_eq v pass_verdict ≡ (length r.findings == 0)) in
    if_ind P (is_empty r.verdict)
      (λ _. if_ind P (length r.findings == 0) (λ e. inr (sym e)) (λ e. inr (sym e))) (λ _. inl refl)
