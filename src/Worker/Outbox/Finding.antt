-- ===== src/Worker/Outbox/Finding.antt =====
-- pendingOutbox and outboxRoots of cmd/trilha-runner/outbox.go: the results that wait on disk.
use trilha_runner.Prelude.{
  ℕ, ltb, Bool, List, [], ◌∷◌, ◌++◌, Option, none, some, Text, codes, text_lt, is_empty,
  if◌then◌else◌,
}
use trilha_runner.Agents.Findings.{contains_text}

pub record Listed : Type 0 where
  pub name : Text
  pub is_dir : Bool

-- The disk: filepath.Glob of the results under a checkout, and the time of a file by os.Stat.
pub record Disk : Type 0 where
  pub results_under : Text → List Text
  pub modified : Text → Option ℕ

-- The projects of outboxRoots; paths are joined by a slash.
unfoldable pub project_roots : Text → List Listed → List Text
project_roots workspace_root [] = []
project_roots workspace_root (e ∷ entries) =
    let rest = project_roots workspace_root entries in
    if e.is_dir then (workspace_root ++ codes "/" ++ e.name) ∷ rest else rest

-- outboxRoots, with what os.ReadDir answers.
unfoldable pub outbox_roots : Text → Text → List Listed → List Text
unfolding project_roots
outbox_roots base_root workspace_root entries =
    base_root ∷ (if is_empty workspace_root then [] else project_roots workspace_root entries)

-- The loop over the matches of a checkout, where `found` is also what was seen.
unfoldable pub add_matches : List Text → List Text → List Text
unfolding contains_text
add_matches [] found = found
add_matches (path ∷ more) found =
    add_matches more (if contains_text found path then found else found ++ (path ∷ []))

module _ (d : Disk) where
  unfoldable pub find_all : List Text → List Text → List Text
  unfolding add_matches
  find_all [] found = found
  find_all (root ∷ roots) found =
      find_all roots (if is_empty root then found else add_matches (d.results_under root) found)

  abbrev pub by_times : Option ℕ → Option ℕ → Text → Text → Bool
  by_times none time a b = text_lt a b
  by_times (some s) none a b = text_lt a b
  by_times (some s) (some t) a b = ltb s t

  -- The order of sort.Slice.
  abbrev pub is_before : Text → Text → Bool
  is_before a b = by_times (d.modified a) (d.modified b) a b

  -- sort.Slice, as an insertion sort.
  unfoldable pub insert_path : Text → List Text → List Text
  unfolding text_lt
  insert_path x [] = x ∷ []
  insert_path x (y ∷ ys) =
      let rest = insert_path x ys in if is_before y x then y ∷ rest else x ∷ y ∷ ys

  unfoldable pub sort_paths : List Text → List Text
  unfolding insert_path
  sort_paths [] = []
  sort_paths (x ∷ xs) = insert_path x (sort_paths xs)

  -- pendingOutbox
  unfoldable pub pending_outbox : List Text → List Text
  unfolding find_all sort_paths
  pending_outbox roots = sort_paths (find_all roots [])
