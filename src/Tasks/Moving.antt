-- ===== src/Tasks/Moving.antt =====
-- Move of internal/taskcompat/taskcompat.go: what it writes.
use trilha_runner.Prelude.{
  ◌≡◌, ◌≢◌, refl, true, false, [], ◌∷◌, none, some, arith, Text, text_eq, text_eq_refl, text_eq_iff,
  if◌then◌else◌, Option-cases, inl, inr,
}
use trilha_runner.Tasks.{
  Status, Task, Files, Protocol, has_remote, local_dependencies, read_file, write_file, move,
}

pub read_file-write_file :
    (files : Files) (id j content : Text)
    → read_file (write_file files id content) j
      ≡ (if text_eq id j then some content else read_file files j)
unfolding read_file write_file
read_file-write_file [] id j content = refl
read_file-write_file ((name, old) ∷ files) id j content = ground (
  arith,
  text_eq_iff name id,
  text_eq_iff name j,
  text_eq_iff id j,
  read_file-write_file files id j content,
)

module _ {Doc : Type 0} (p : Protocol Doc) where
  -- What a move that succeeds leaves, for a task with a remote dependency.
  pub record MovedRemote (files : Files) (item : Task Doc) (to : Status) (item' : Task Doc)
      (files' : Files) : Type 0 where
    pub copy : Task Doc
    pub allowed :
        p.task_move (record item { depends_on = local_dependencies item.depends_on }) to ≡ some copy
    pub status_moved : item'.status ≡ copy.status
    pub depends_kept : item'.depends_on ≡ item.depends_on
    pub id_kept : item'.id ≡ item.id
    pub written : read_file files' item.id ≡ some (p.task_bytes item')
    pub others : (j : Text) → item.id ≢ j → read_file files' j ≡ read_file files j

  pub move-MovedRemote :
      (files : Files) (item : Task Doc) (to : Status) (item' : Task Doc) (files' : Files)
      → has_remote item.depends_on ≡ true
      → move p files item to ≡ some (item', files')
      → MovedRemote files item to item' files'
  unfolding move
  move-MovedRemote files item to item' files' r h =
      elim (Option-cases
        (p.task_move (record item { depends_on = local_dependencies item.depends_on }) to)) [
          | inl refused ↦ absurd (ground arith)
          | inr (copy, allowed) ↦
              let saved : Task Doc = record item { status = copy.status; updated = copy.updated } in
              let e : item' ≡ saved = ground arith in
              let f : files' ≡ write_file files item.id (p.task_bytes saved) = ground arith in
              rw (e, f)
                (record {
                  copy = copy;
                  allowed = allowed;
                  status_moved = refl;
                  depends_kept = refl;
                  id_kept = refl;
                  written = rw (read_file-write_file, text_eq_refl);
                  others = λ j other. ground (
                    arith,
                    text_eq_iff item.id j,
                    read_file-write_file files item.id j (p.task_bytes saved),
                  );
                })
        ]

  -- A refused move leaves nothing behind; a local one is the store's own.
  pub move_local :
      (files : Files) (item : Task Doc) (to : Status)
      → has_remote item.depends_on ≡ false
      → move p files item to
        ≡ elim (p.store_move files item.id to) [ none ↦ none | some files' ↦ some (item, files') ]
  unfolding move
  move_local files item to r = rw r
