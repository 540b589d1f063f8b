-- ===== src/Worktrees/Doctor/Totals.antt =====
-- The loop of Doctor in worktree/doctor.go, and its counts.
use trilha_runner.Prelude.{
  ℕ, ◌+◌, ltb, Bool, ◌||◌, List, [], ◌∷◌, ◌++◌, Text, text_lt, if◌then◌else◌,
}
use trilha_runner.Worktrees.{Host, Command, prune_trees}
use trilha_runner.Worktrees.Doctor.{
  Class, live, finished_kept, orphaned, metadata_only, Bucket, fresh, recent, old, Action, kept,
  removed, skipped, failed, Entry, Options, Scan, treat,
}

pub record Report : Type 0 where
  pub entries : List Entry
  pub n_live : ℕ
  pub n_finished_kept : ℕ
  pub n_orphaned : ℕ
  pub n_metadata_only : ℕ
  pub n_fresh : ℕ
  pub n_recent : ℕ
  pub n_old : ℕ
  pub n_removed : ℕ
  pub n_skipped : ℕ
  pub n_failed : ℕ

abbrev pub empty_report : Report
empty_report = record {
  entries = [];
  n_live = 0;
  n_finished_kept = 0;
  n_orphaned = 0;
  n_metadata_only = 0;
  n_fresh = 0;
  n_recent = 0;
  n_old = 0;
  n_removed = 0;
  n_skipped = 0;
  n_failed = 0;
}

abbrev pub count_class : Report → Class → Report
count_class r live = record r { n_live = r.n_live + 1 }
count_class r finished_kept = record r { n_finished_kept = r.n_finished_kept + 1 }
count_class r orphaned = record r { n_orphaned = r.n_orphaned + 1 }
count_class r metadata_only = record r { n_metadata_only = r.n_metadata_only + 1 }

abbrev pub count_bucket : Report → Bucket → Report
count_bucket r fresh = record r { n_fresh = r.n_fresh + 1 }
count_bucket r recent = record r { n_recent = r.n_recent + 1 }
count_bucket r old = record r { n_old = r.n_old + 1 }

abbrev pub count_action : Report → Action → Report
count_action r kept = r
count_action r removed = record r { n_removed = r.n_removed + 1 }
count_action r skipped = record r { n_skipped = r.n_skipped + 1 }
count_action r failed = record r { n_failed = r.n_failed + 1 }

abbrev pub note_entry : Report → Entry → Report
note_entry r e =
    let counted = count_action (count_bucket (count_class r e.class) e.bucket) e.action in
    record counted { entries = r.entries ++ (e ∷ []) }

-- sort.Slice by key; the keys of a directory differ, so that any sort gives this order.
abbrev pub insert_entry : Entry → List Entry → List Entry
insert_entry e [] = e ∷ []
insert_entry e (x ∷ xs) =
    let rest = insert_entry e xs in if text_lt x.key e.key then x ∷ rest else e ∷ x ∷ xs

abbrev pub sort_by_key : List Entry → List Entry
sort_by_key [] = []
sort_by_key (e ∷ es) = insert_entry e (sort_by_key es)

module _ (h : Host) (m : Scan) (o : Options) where
  -- The loop over the directories under runs/, by name.
  unfoldable pub treat_all : List Text → Report × List Command → Report × List Command
  treat_all [] (r, commands) = (r, commands)
  treat_all (key ∷ keys) (r, commands) =
      let (e, more) = treat h m o key in treat_all keys (note_entry r e, commands ++ more)

  -- Doctor, when the runs directory can be read.
  unfoldable pub doctor : List Text → Report × List Command
  doctor keys =
      let (r, commands) = treat_all keys (empty_report, []) in
      let last = if ltb 0 r.n_removed then prune_trees ∷ [] else [] in
      (record r { entries = sort_by_key r.entries }, commands ++ last)

unfoldable pub incomplete : Report → Bool
incomplete r = ltb 0 r.n_skipped || ltb 0 r.n_failed
