-- ===== src/Agents/Attached.antt =====
-- What attachReport of runner/work.go puts into the result of a run.
use trilha_runner.Prelude.{
  ℕ, true, false, ◌&&◌, ◌||◌, List, [], ◌∷◌, Option, none, some, inl, inr, ◌⊎◌, Text, text_eq,
  eq_of_text_eq, is_empty, length, All, if_ind, map, ◌≡◌, ◌==◌, refl, sym, subst, ap, ◌∙◌, arith,
}
use trilha_runner.Runs.{Kind, Work, implement, review, hunt, other, read_only}
use trilha_runner.Agents.{Pattern}
use trilha_runner.Agents.Findings.{Finding, Report, World, Handed}
use trilha_runner.Agents.Handing.{handle_all, new_report, reply_for, replies_of}
use trilha_runner.Agents.Kept.{IsClean, IsReply, IsFit, IsKept, handle_all-IsKept}
use trilha_runner.Agents.Attaching.{
  Seed, ReportResult, policy, pass_verdict, changes_verdict, result_of, hunt_seed, seeded,
  attach_kind, attach_report,
}
use trilha_runner.Agents.Verdicts.{
  IsVerdict, handle_all-IsVerdict, verdict_of-IsVerdict, verdict_of-given,
}

-- Every seed that is derived names an area and a style.
abbrev pub Names : (ℕ → Text × Text) → Type 0
Names derive = (n : ℕ) → (is_empty (derive n).0 ≡ false) × (is_empty (derive n).1 ≡ false)

hunt_seed-named :
    (derive : ℕ → Text × Text) (seed : Option Seed)
    → Names derive
    → (is_empty (hunt_seed derive seed).0 ≡ false) × (is_empty (hunt_seed derive seed).1 ≡ false)
unfolding hunt_seed
hunt_seed-named derive none named = named 0
hunt_seed-named derive (some s) named =
    if_ind (λ (p : Text × Text). (is_empty p.0 ≡ false) × (is_empty p.1 ≡ false))
      (is_empty s.area || is_empty s.style) (λ _. named s.number)
      (λ e. (ground (arith, e), ground (arith, e)))

module _ (w : World) (patterns : List Pattern) (secrets comments : List Text) where
  abbrev pub unseeded : Finding → Finding
  unseeded f = record f { area = []; style = [] }

  -- A finding of a hunt: kept as it was handed over, but for an area and a style.
  abbrev pub IsHunted : Finding → Type 0
  IsHunted f =
      (is_empty f.area ≡ false)
      × (is_empty f.style ≡ false)
      × IsClean w patterns secrets comments (unseeded f)

  -- A verdict of the protocol with all findings: the agent's, or changes exactly when there are
  -- findings.
  abbrev pub IsReviewed : Report → Option (Text × List Finding) → Type 0
  IsReviewed r none = ⊥
  IsReviewed r (some (v, fs)) =
      (text_eq v pass_verdict || text_eq v changes_verdict ≡ true)
      × ((v ≡ r.verdict) ⊎ (text_eq v pass_verdict ≡ (length fs == 0)))
      × (fs ≡ r.findings)
      × All (IsClean w patterns secrets comments) fs

  -- The findings and the verdict of a run of a kind.
  abbrev pub IsFor : Kind → Report → ReportResult → Type 0
  IsFor review r res = (res.findings ≡ []) × IsReviewed r res.verdict
  IsFor hunt r res =
      (res.verdict ≡ none) × (map unseeded res.findings ≡ r.findings) × All IsHunted res.findings
  IsFor implement r res = (res.verdict ≡ none) × (res.findings ≡ [])
  IsFor other r res = (res.verdict ≡ none) × (res.findings ≡ [])

  -- Refused by policy with nothing of the report, or with all of it.
  abbrev pub IsAttached : Work → Text → Report → ReportResult → Type 0
  IsAttached work class r res =
      ((text_eq class policy && read_only work ≡ true) × (res ≡ result_of class))
      ⊎ ((text_eq class policy && read_only work ≡ false)
          × (res.artifacts ≡ r.artifacts)
          × All (IsFit w patterns secrets comments) res.artifacts
          × All (IsReply w patterns secrets comments) res.replies
          × IsFor work.kind r res)

  abbrev IsAnswer : Text → Option Text → Type 0
  IsAnswer id none = Unit
  IsAnswer id (some text) = IsReply w patterns secrets comments (id, text)

  reply_for-IsReply :
      (id : Text) (replies : List (Text × Text))
      → All (IsReply w patterns secrets comments) replies
      → IsAnswer id (reply_for id replies)
  unfolding reply_for
  reply_for-IsReply id [] h = tt
  reply_for-IsReply id ((key, text) ∷ rest) (hx, hs) =
      if_ind (IsAnswer id) (text_eq key id)
        (λ e.
          subst (λ k. IsReply w patterns secrets comments (k, text)) (eq_of_text_eq key id e) hx)
        (λ _. reply_for-IsReply id rest hs)

  with_answer-IsReply :
      (id : Text) (o : Option Text) (rest : List (Text × Text))
      → IsAnswer id o
      → All (IsReply w patterns secrets comments) rest
      → All
          (IsReply w patterns secrets comments)
          (elim o [ none ↦ rest | some text ↦ (id, text) ∷ rest ])
  with_answer-IsReply id none rest h hs = hs
  with_answer-IsReply id (some text) rest h hs = (h, hs)

  replies_of-IsReply :
      (ids : List Text) (replies : List (Text × Text))
      → All (IsReply w patterns secrets comments) replies
      → All (IsReply w patterns secrets comments) (replies_of ids replies)
  unfolding replies_of
  replies_of-IsReply [] replies h = tt
  replies_of-IsReply (id ∷ ids) replies h =
      with_answer-IsReply id (reply_for id replies) (replies_of ids replies)
        (reply_for-IsReply id replies h) (replies_of-IsReply ids replies h)

  hunted :
      (s : Text × Text) (fs : List Finding)
      → (is_empty s.0 ≡ false)
      → (is_empty s.1 ≡ false)
      → All (IsClean w patterns secrets comments) fs
      → (map unseeded (map (seeded s) fs) ≡ fs) × All IsHunted (map (seeded s) fs)
  hunted s [] area style h = (refl, tt)
  hunted s (f ∷ fs) area style (((given, e), valid), h) =
      let (back, all) = hunted s fs area style h in
      let same : unseeded (seeded s f) ≡ f = ap (λ g. unseeded (seeded s g)) e ∙ sym e in
      (
        ap (λ g. g ∷ map unseeded (map (seeded s) fs)) same ∙ ap (λ l. f ∷ l) back,
        ((area, style, ((given, same ∙ e), ap w.validate same ∙ valid)), all),
      )

  attach_kind-IsFor :
      (derive : ℕ → Text × Text) (kind : Kind) (seed : Option Seed) (r : Report) (class : Text)
      → Names derive
      → IsVerdict r.verdict
      → All (IsClean w patterns secrets comments) r.findings
      → IsFor kind r (
          attach_kind derive kind seed r (record (result_of class) {
            replies = replies_of r.comments r.replies;
            artifacts = r.artifacts;
          }))
  unfolding attach_kind
  attach_kind-IsFor derive implement seed r class named spoken clean = (refl, refl)
  attach_kind-IsFor derive other seed r class named spoken clean = (refl, refl)
  attach_kind-IsFor derive review seed r class named spoken clean =
      (refl, (verdict_of-IsVerdict r spoken, verdict_of-given r, refl, clean))
  attach_kind-IsFor derive hunt seed r class named spoken clean =
      let (area, style) = hunt_seed-named derive seed named in
      let (back, all) = hunted (hunt_seed derive seed) r.findings area style clean in
      (refl, back, all)

  attach_kind-rest :
      (derive : ℕ → Text × Text) (kind : Kind) (seed : Option Seed) (r : Report)
      (res : ReportResult)
      → ((attach_kind derive kind seed r res).artifacts ≡ res.artifacts)
        × ((attach_kind derive kind seed r res).replies ≡ res.replies)
  unfolding attach_kind
  attach_kind-rest derive implement seed r res = (refl, refl)
  attach_kind-rest derive other seed r res = (refl, refl)
  attach_kind-rest derive review seed r res = (refl, refl)
  attach_kind-rest derive hunt seed r res = (refl, refl)

  attach_report-kept :
      (derive : ℕ → Text × Text) (work : Work) (seed : Option Seed) (r : Report) (class : Text)
      → Names derive
      → IsVerdict r.verdict
      → IsKept w patterns secrets comments r
      → IsAttached work class r (attach_report derive work seed r (result_of class))
  unfolding attach_report
  attach_report-kept derive work seed r class named spoken
        (_, few, clean, answers, count, distinct, fits) =
      if_ind (IsAttached work class r) (text_eq class policy && read_only work)
        (λ refused. inl (refused, refl))
        (λ allowed.
          let whole = record (result_of class) {
            replies = replies_of r.comments r.replies;
            artifacts = r.artifacts;
          } in
          let (same, told) = attach_kind-rest derive work.kind seed r whole in
          inr (
            allowed,
            same,
            subst (λ l. All (IsFit w patterns secrets comments) l) (sym same) fits,
            subst (λ l. All (IsReply w patterns secrets comments) l) (sym told)
                (replies_of-IsReply r.comments r.replies answers),
            attach_kind-IsFor derive work.kind seed r class named spoken clean,
          ))

-- Whatever an agent hands over, when every derived seed names an area and a style: a read-only run
-- that policy refused gets nothing of the report, and any other run all its artifacts, and replies
-- that were cleaned, cut and are for comments of the claim. A hunt gets all findings, each with an
-- area and a style, and no verdict. A review gets no findings beside its verdict, which is pass or
-- changes with all findings: the agent's, or changes exactly when there are findings. Runs of any
-- other kind get neither.
pub attach_report-IsAttached :
    (w : World) (patterns : List Pattern) (secrets comments : List Text) (dir : Text)
    (sources : List Text) (ms : List Handed) (derive : ℕ → Text × Text) (work : Work)
    (seed : Option Seed) (class : Text)
    → Names derive
    → (let r = handle_all w patterns secrets ms (new_report comments dir sources) in
        IsAttached w patterns secrets comments work class r
          (attach_report derive work seed r (result_of class)))
attach_report-IsAttached w patterns secrets comments dir sources ms derive work seed class named =
    attach_report-kept w patterns secrets comments derive work seed
      (handle_all w patterns secrets ms (new_report comments dir sources)) class named
      (handle_all-IsVerdict w patterns secrets ms (new_report comments dir sources) refl)
      (handle_all-IsKept w patterns secrets comments dir sources ms)
