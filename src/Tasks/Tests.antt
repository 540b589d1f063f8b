-- ===== src/Tasks/Tests.antt =====
-- The theorems on tasks at concrete inputs.
use mathlib.Core.List.{Perm}
use trilha_runner.Prelude.{◌≡◌, refl, true, false, List, [], ◌∷◌, none, some, Text, codes}
use trilha_runner.Tasks.{
  Status, Task, Files, DirEntry, holding, unreadable, no_listing, err, move, list, disagree,
}
use trilha_runner.Tasks.Moving.{MovedRemote, move-MovedRemote}
use trilha_runner.Tasks.Listing.{Reads, IsSorted, list-IsSorted}
use trilha_runner.Tasks.Samples.{sample, sample_task, encode}

abbrev cross : List Text
cross = codes "TASK-001" ∷ codes "trilha:TASK-007" ∷ []

abbrev cross_content : Text
unfolding encode
cross_content = encode cross

abbrev before : Task Text
before = sample_task (codes "TASK-002") Status.ready cross

abbrev after : Task Text
after = sample_task (codes "TASK-002") Status.running cross

abbrev files : Files
files = (codes "TASK-001", codes "one") ∷ (codes "TASK-002", codes "two") ∷ []

abbrev files' : Files
unfolding encode
files' = (codes "TASK-001", codes "one") ∷ (codes "TASK-002", encode cross) ∷ []

move-MovedRemote_example : MovedRemote sample files before Status.running after files'
unfolding move sample encode
move-MovedRemote_example =
    move-MovedRemote sample files before Status.running after files' refl refl

-- Two task files, a note and a directory; both sample files parse to TASK-001.
abbrev one_file : List DirEntry
one_file =
    record { name = codes "notes.txt"; is_dir = false; content = none }
    ∷ record { name = codes "old.md"; is_dir = true; content = none }
    ∷ record { name = codes "TASK-001.md"; is_dir = false; content = some [] }
    ∷ []

abbrev listed : List (Task Text)
listed = sample_task (codes "TASK-001") Status.ready [] ∷ []

list-IsSorted_example :
    (read : List (Task Text)) × Reads sample one_file read × Perm listed read × IsSorted listed
unfolding list sample
list-IsSorted_example = list-IsSorted sample one_file listed refl

-- A file whose name disagrees with its id is refused.
list_disagree :
    list sample
      (holding (record { name = codes "TASK-003.md"; is_dir = false; content = some [] } ∷ []))
    ≡ err (disagree (codes "TASK-003.md") (codes "TASK-001"))
unfolding list sample
list_disagree = refl

list_unreadable : list sample unreadable ≡ err no_listing
unfolding list
list_unreadable = refl
