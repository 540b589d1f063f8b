-- ===== src/Agents/Kept.antt =====
-- What the runner keeps of what an agent hands over, in runner/report.go.
use trilha_runner.Prelude.{
  Any, ◌++◌, has_prefix_split, ℕ, ◌≤◌, ◌<◌, ltb, leb, ◌==◌, true, false, ◌&&◌, ◌||◌, not, List, [],
  ◌∷◌, ◌⊎◌, inl, inr, Option, none, some, is_some, Text, codes, text_eq, is_empty, trim_space,
  to_lower, length, length-append, All, All-append, if_ind, ◌≡◌, refl, sym, ap, ◌∙◌, arith,
}
use trilha_runner.Agents.{Pattern, scan}
use trilha_runner.Agents.Findings.{
  Finding, Artifact, Report, verdict, World, Handed, ext, artifact_type, has_name, replace,
  contains_text, trim_dot, finding, reply, artifact,
}
use trilha_runner.Agents.Handing.{
  scrubbed, cleaned, add_finding, add_reply, name_of, content_of, starts_wrong, entry_for, written,
  accept, accept_type, add_artifact, handle_report, handle_all, new_report,
}
use trilha_runner.Agents.Entries.{
  NamedApart, Distinct-NamedApart, contains_text-Any, Distinct-append, length-replace,
  Distinct-replace, All-replace, All-put,
}

module _ (w : World) (patterns : List Pattern) (secrets comments : List Text) where
  -- A text that was trimmed, scanned for secrets and cut.
  abbrev pub scanned : Text → ℕ → Text
  scanned text limit = w.truncate (scan patterns secrets (trim_space text)).0 limit

  -- A finding that is valid, from one that was given: its texts are scanned and its path is not,
  -- and what the runner and the control plane say is not there.
  abbrev pub IsClean : Finding → Type 0
  IsClean f =
      ((given : Finding) × (f ≡ record {
        severity = given.severity;
        path = trim_dot (trim_space given.path);
        line_start = given.line_start;
        line_end = given.line_end;
        title = scanned given.title w.max_title;
        why = scanned given.why w.max_text;
        repro = scanned given.repro w.max_text;
        area = [];
        style = [];
        found_by = [];
      }))
      × (w.validate f ≡ none)

  -- A cleaned and cut answer to a comment of the claim.
  abbrev pub IsReply : Text × Text → Type 0
  IsReply (id, text) =
      Any (λ comment. comment ≡ id) comments × ((raw : Text) × (text ≡ scanned raw w.max_reply))

  -- A content that starts with the first bytes of its type, where the type has any.
  abbrev pub Starts : Option Text → Text → Type 0
  Starts none content = Unit
  Starts (some magic) content = (rest : Text) × (content ≡ magic ++ rest)

  starts_wrong-Starts :
      (magic : Option Text) (content : Text)
      → starts_wrong w patterns secrets magic content ≡ false
      → Starts magic content
  starts_wrong-Starts none content h = tt
  starts_wrong-Starts (some magic) content h = has_prefix_split content magic (ground (arith, h))

  -- An artifact that may leave: of a known type, within the size, an image by its first bytes, and
  -- a text without a secret.
  abbrev pub IsFit : Artifact → Type 0
  IsFit a =
      (0 < length a.copy)
      × (length a.copy ≤ w.max_bytes)
      × (w.validate_artifact a ≡ none)
      × ((magic : Option Text) × (artifact_type (to_lower (ext a.name))
            ≡ some (a.content_type, magic))
          × Starts magic a.copy
          × ((is_some magic ≡ false) → (scan patterns secrets a.copy).1 ≡ false))

  abbrev pub IsKept : Report → Type 0
  IsKept r =
      (r.comments ≡ comments)
      × (length r.findings ≤ w.max_findings)
      × All IsClean r.findings
      × All IsReply r.replies
      × (length r.artifacts ≤ w.max_artifacts)
      × NamedApart r.artifacts
      × All IsFit r.artifacts

  none_of : (o : Option Text) → (is_some o ≡ false) → o ≡ none
  none_of none h = refl
  none_of (some e) h = cc

  add_finding-IsKept :
      (f : Option Finding) (r : Report) → IsKept r → IsKept (add_finding w patterns secrets f r)
  unfolding add_finding
  add_finding-IsKept none r kept = kept
  add_finding-IsKept (some f) r (same, few, clean, replies, count, distinct, fits) =
      let g = cleaned w patterns secrets f in
      if_ind IsKept (is_some (w.validate g))
        (λ _. (same, few, clean, replies, count, distinct, fits))
        (λ valid.
          if_ind IsKept (leb w.max_findings (length r.findings))
            (λ _. (same, few, clean, replies, count, distinct, fits))
            (λ room. (
              same,
              ground (arith, length-append r.findings (g ∷ []), room),
              All-append IsClean r.findings (g ∷ []) clean
                  (((f, refl), none_of (w.validate g) valid), tt),
              replies,
              count,
              distinct,
              fits,
            )))

  add_reply-IsKept :
      (id text : Text) (r : Report) → IsKept r → IsKept (add_reply w patterns secrets id text r)
  unfolding add_reply
  add_reply-IsKept id text r (same, few, clean, replies, count, distinct, fits) =
      if_ind IsKept (not (contains_text r.comments (trim_space id)) || is_empty (trim_space text))
        (λ _. (same, few, clean, replies, count, distinct, fits))
        (λ known.
          let found : contains_text r.comments (trim_space id) ≡ true = ground (arith, known) in
          (
            same,
            few,
            clean,
            All-put IsReply (trim_space id)
                (w.truncate (scrubbed w patterns secrets (trim_space text)) w.max_reply) r.replies
                (
                  contains_text-Any comments (trim_space id)
                      (ap (λ l. contains_text l (trim_space id)) (sym same) ∙ found),
                  (text, refl),
                )
                replies,
            count,
            distinct,
            fits,
          ))

  written-IsKept :
      (r : Report) (entry : Artifact) (e : Option Text)
      → IsKept r
      → IsFit entry
      → (not (has_name entry.name r.artifacts) && leb w.max_artifacts (length r.artifacts) ≡ false)
      → IsKept (written w patterns secrets r entry e).0
  unfolding written
  written-IsKept r entry (some e) kept fit room = kept
  written-IsKept r entry none (same, few, clean, replies, count, distinct, fits) fit room =
      if_ind (λ (x : Report × Option Text). IsKept x.0) (has_name entry.name r.artifacts)
        (λ there. (
          same,
          few,
          clean,
          replies,
          ground (arith, length-replace entry.name entry r.artifacts, count),
          (Distinct-NamedApart (replace entry.name entry r.artifacts)).0
              (Distinct-replace entry r.artifacts ((Distinct-NamedApart r.artifacts).1 distinct)),
          All-replace IsFit entry.name entry r.artifacts fit fits,
        ))
        (λ new. (
          same,
          few,
          clean,
          replies,
          ground (arith, length-append r.artifacts (entry ∷ []), room, new),
          (Distinct-NamedApart (r.artifacts ++ (entry ∷ []))).0 (
              Distinct-append r.artifacts entry new ((Distinct-NamedApart r.artifacts).1 distinct)),
          All-append IsFit r.artifacts (entry ∷ []) fits (fit, tt),
        ))

  accept-IsKept :
      (r : Report) (entry : Artifact) (magic : Option Text)
      → IsKept r
      → (artifact_type (to_lower (ext entry.name)) ≡ some (entry.content_type, magic))
      → IsKept (accept w patterns secrets r entry magic).0
  unfolding accept
  accept-IsKept r entry magic kept kind =
      let P = λ (x : Report × Option Text). IsKept x.0 in
      if_ind P (length entry.copy == 0 || ltb w.max_bytes (length entry.copy)) (λ _. kept)
        (λ sized.
          if_ind P (starts_wrong w patterns secrets magic entry.copy) (λ _. kept)
            (λ starts.
              if_ind P (not (is_some magic) && (scan patterns secrets entry.copy).1) (λ _. kept)
                (λ secretless.
                  if_ind P (is_some (w.validate_artifact entry)) (λ _. kept)
                    (λ valid.
                      if_ind P
                        (not (has_name entry.name r.artifacts)
                          && leb w.max_artifacts (length r.artifacts))
                        (λ _. kept)
                        (λ room.
                          if_ind P (is_empty r.artifact_dir) (λ _. kept)
                            (λ _.
                              written-IsKept r entry (w.write entry.path entry.copy) kept
                                (
                                  ground (arith, sized),
                                  ground (arith, sized),
                                  none_of (w.validate_artifact entry) valid,
                                  (
                                    magic,
                                    kind,
                                    starts_wrong-Starts magic entry.copy starts,
                                    λ text. ground (arith, secretless, text),
                                  ),
                                )
                                room))))))

  accept_type-IsKept :
      (r : Report) (name : Text) (kind : Option (Text × Option Text)) (content : Text ⊎ Text)
      → IsKept r
      → (artifact_type (to_lower (ext name)) ≡ kind)
      → IsKept (accept_type w patterns secrets r name kind content).0
  accept_type-IsKept r name none content kept e = kept
  accept_type-IsKept r name (some (content_type, magic)) (inl failure) kept e = kept
  accept_type-IsKept r name (some (content_type, magic)) (inr content) kept e =
      accept-IsKept r (entry_for w patterns secrets r name content_type content) magic kept e

  handle_report-IsKept :
      (m : Handed) (r : Report) → IsKept r → IsKept (handle_report w patterns secrets m r)
  unfolding handle_report add_artifact
  handle_report-IsKept (finding f) r kept = add_finding-IsKept f r kept
  handle_report-IsKept (verdict v) r kept =
      if_ind IsKept (text_eq v (codes "pass") || text_eq v (codes "changes")) (λ _. kept)
        (λ _. kept)
  handle_report-IsKept (reply id text) r kept = add_reply-IsKept id text r kept
  handle_report-IsKept (artifact name source content) r kept =
      let chosen = name_of w patterns secrets name source in
      accept_type-IsKept r chosen (artifact_type (to_lower (ext chosen)))
        (content_of w patterns secrets r source content) kept refl

  handle_on-IsKept :
      (ms : List Handed) (r : Report) → IsKept r → IsKept (handle_all w patterns secrets ms r)
  unfolding handle_all
  handle_on-IsKept [] r kept = kept
  handle_on-IsKept (m ∷ ms) r kept =
      handle_on-IsKept ms (handle_report w patterns secrets m r) (handle_report-IsKept m r kept)

-- Whatever an agent hands over, the report has no more findings and artifacts than the protocol
-- allows; each finding is valid, and its title, why and repro, but not its path, are scanned for
-- secrets and cut; each reply is scanned, cut and for a comment of the claim, and each artifact has its own name, a known type, a size within the limit, the first
-- bytes of its type when it is an image, and no secret when it is a text.
pub handle_all-IsKept :
    (w : World) (patterns : List Pattern) (secrets comments : List Text) (dir : Text)
    (sources : List Text) (ms : List Handed)
    → IsKept w patterns secrets comments
        (handle_all w patterns secrets ms (new_report comments dir sources))
handle_all-IsKept w patterns secrets comments dir sources ms =
    handle_on-IsKept w patterns secrets comments ms (new_report comments dir sources)
      (refl, omega arith, tt, tt, omega arith, tt, tt)
