-- ===== src/Worker/Outbox/Tests.antt =====
-- The outboxes of three checkouts, in cmd/trilha-runner/outbox.go.
use trilha_runner.Prelude.{
  ◌≡◌, refl, ℕ, true, false, List, [], ◌∷◌, ◌++◌, some, Text, codes, text_eq, has_prefix, length,
  text_lt, if◌then◌else◌,
}
use trilha_runner.Agents.Findings.{contains_text}
use trilha_runner.Worker.Outbox.Finding.{
  Disk, project_roots, outbox_roots, add_matches, find_all, insert_path, sort_paths, pending_outbox,
}
use trilha_runner.Worker.Outbox.Oldest.{Unique, IsOldestFirst, waits_in, pending_outbox-Waits}

abbrev age : Text → ℕ
age path = if has_prefix path (codes "/b") then 5 else length path

abbrev disk : Disk
disk = record {
  results_under = λ root.
      (root ++ codes "/.trilha/runs/r1/result.json")
      ∷ (root ++ codes "/.trilha/runs/r2/result.json")
      ∷ [];
  modified = λ path. some (age path);
}

age_of : (path : Text) → disk.modified path ≡ some (age path)
age_of path = refl

abbrev checkouts : List Text
checkouts = codes "/w" ∷ codes "/b" ∷ [] ∷ codes "/w" ∷ []

projects_only :
    outbox_roots (codes "/w") (codes "/p") (
      record { name = codes "x"; is_dir = true } ∷ record { name = codes "y"; is_dir = false } ∷ [])
    ≡ codes "/w" ∷ codes "/p/x" ∷ []
unfolding outbox_roots project_roots
projects_only = refl

older_first :
    pending_outbox disk checkouts
    ≡ codes "/b/.trilha/runs/r1/result.json"
      ∷ codes "/b/.trilha/runs/r2/result.json"
      ∷ codes "/w/.trilha/runs/r1/result.json"
      ∷ codes "/w/.trilha/runs/r2/result.json"
      ∷ []
unfolding pending_outbox find_all add_matches sort_paths insert_path contains_text text_eq
    has_prefix text_lt
older_first = refl

pending_outbox-Waits_example :
    ((path : Text)
      → contains_text (pending_outbox disk checkouts) path ≡ waits_in disk checkouts path)
    × Unique (pending_outbox disk checkouts)
    × IsOldestFirst disk age age_of (pending_outbox disk checkouts)
pending_outbox-Waits_example = pending_outbox-Waits disk age age_of checkouts
