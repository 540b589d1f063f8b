-- ===== src/Tasks/Listing.antt =====
-- List of internal/taskcompat/taskcompat.go: the tasks of the files, and their order.
use mathlib.Core.List.Perm
use mathlib.Core.List.{Perm}
use trilha_runner.Prelude.{
  ◌≡◌, refl, true, false, List, [], ◌∷◌, ◌++◌, none, some, arith, Text, All, text_lt, text_lt_asymm,
  text_le_trans, text_eq, eq_of_text_eq, strip_suffix, strip_suffix-append, Bool-cases,
  Option-cases, inl, inr,
}
use trilha_runner.Tasks.{
  Task, Protocol, Result, ok, err, DirEntry, holding, is_task_file, md_suffix, insert_by_id,
  sort_by_id, parse, read_entry, read_entries, and_read, list,
}

module _ {Doc : Type 0} where
  abbrev pub IsSorted : List (Task Doc) → Type 0
  IsSorted [] = Unit
  IsSorted (x ∷ xs) = All (λ y. text_lt y.id x.id ≡ false) xs × IsSorted xs

  All-insert_by_id :
      (P : Task Doc → Type 0) (x : Task Doc) (xs : List (Task Doc))
      → P x
      → All P xs
      → All P (insert_by_id x xs)
  unfolding insert_by_id
  All-insert_by_id P x [] px h = (px, tt)
  All-insert_by_id P x (y ∷ ys) px h = elim (Bool-cases (text_lt y.id x.id)) [
    | inl less ↦ rw less (h.0, All-insert_by_id P x ys px h.1)
    | inr more ↦ rw more (px, h)
  ]

  All-le :
      (x y : Task Doc) (ys : List (Task Doc))
      → text_lt y.id x.id ≡ false
      → All (λ z. text_lt z.id y.id ≡ false) ys
      → All (λ z. text_lt z.id x.id ≡ false) ys
  All-le x y [] h k = tt
  All-le x y (z ∷ ys) h k = (text_le_trans x.id y.id z.id h k.0, All-le x y ys h k.1)

  insert_by_id-IsSorted :
      (x : Task Doc) (xs : List (Task Doc)) → IsSorted xs → IsSorted (insert_by_id x xs)
  unfolding insert_by_id
  insert_by_id-IsSorted x [] h = (tt, tt)
  insert_by_id-IsSorted x (y ∷ ys) h = elim (Bool-cases (text_lt y.id x.id)) [
    | inl less ↦ rw less (
      All-insert_by_id (λ z. text_lt z.id y.id ≡ false) x ys (text_lt_asymm y.id x.id less) h.0,
      insert_by_id-IsSorted x ys h.1,
    )
    | inr more ↦ rw more ((more, All-le x y ys more h.0), h)
  ]

  sort_by_id-IsSorted : (xs : List (Task Doc)) → IsSorted (sort_by_id xs)
  unfolding sort_by_id
  sort_by_id-IsSorted [] = tt
  sort_by_id-IsSorted (x ∷ xs) = insert_by_id-IsSorted x (sort_by_id xs) (sort_by_id-IsSorted xs)

  insert_by_id-perm : (x : Task Doc) (xs : List (Task Doc)) → Perm (insert_by_id x xs) (x ∷ xs)
  unfolding insert_by_id
  insert_by_id-perm x [] = Perm.refl (x ∷ [])
  insert_by_id-perm x (y ∷ ys) = elim (Bool-cases (text_lt y.id x.id)) [
    | inl less ↦ rw less (Perm.trans (Perm.cons y (insert_by_id-perm x ys)) (Perm.swap x y ys))
    | inr more ↦ rw more (Perm.refl (x ∷ y ∷ ys))
  ]

  sort_by_id-perm : (xs : List (Task Doc)) → Perm (sort_by_id xs) xs
  unfolding sort_by_id
  sort_by_id-perm [] = Perm.refl []
  sort_by_id-perm (x ∷ xs) =
      Perm.trans (insert_by_id-perm x (sort_by_id xs)) (Perm.cons x (sort_by_id-perm xs))

module _ {Doc : Type 0} (p : Protocol Doc) where
  -- The tasks of the files, in the directory's order.
  pub data Reads : List DirEntry → List (Task Doc) → Type 0 where
    nothing : Reads [] []
    skipped :
        (entry : DirEntry) {entries : List DirEntry} {tasks : List (Task Doc)}
        → is_task_file entry ≡ false
        → Reads entries tasks
        → Reads (entry ∷ entries) tasks
    parsed :
        (entry : DirEntry) (content : Text) (t : Task Doc) {entries : List DirEntry}
        {tasks : List (Task Doc)}
        → is_task_file entry ≡ true
        → entry.content ≡ some content
        → parse p content ≡ some t
        → entry.name ≡ t.id ++ md_suffix
        → Reads entries tasks
        → Reads (entry ∷ entries) (t ∷ tasks)

  and_read-eq-ok :
      (r : Result (Task Doc)) (rest : Result (List (Task Doc))) {tasks : List (Task Doc)}
      → and_read p r rest ≡ ok tasks
      → (t : Task Doc) × (ts : List (Task Doc)) × (r ≡ ok t) × (rest ≡ ok ts) × (tasks ≡ t ∷ ts)
  and_read-eq-ok (ok t) (ok ts) h = (t, ts, refl, refl, ground arith)
  and_read-eq-ok (ok t) (err e) h = absurd (ground arith)
  and_read-eq-ok (err e) rest h = absurd (ground arith)

  stripped_name :
      (entry : DirEntry) (id : Text)
      → is_task_file entry ≡ true
      → text_eq (elim (strip_suffix entry.name md_suffix) [ none ↦ entry.name | some t ↦ t ]) id
        ≡ true
      → entry.name ≡ id ++ md_suffix
  stripped_name entry id file same = elim (Option-cases (strip_suffix entry.name md_suffix)) [
    | inl absent ↦ absurd (ground arith)
    | inr (stem, found) ↦
        let e : stem ≡ id = eq_of_text_eq stem id (ground arith) in
        rw (← e) (strip_suffix-append entry.name md_suffix found)
  ]

  read_entry-eq-ok :
      (entry : DirEntry) (t : Task Doc)
      → is_task_file entry ≡ true
      → read_entry p entry ≡ ok t
      → (content : Text) × (entry.content ≡ some content)
        × (parse p content ≡ some t)
        × (entry.name ≡ t.id ++ md_suffix)
  unfolding read_entry
  read_entry-eq-ok entry t file h = elim (Option-cases entry.content) [
    | inl absent ↦ absurd (ground arith)
    | inr (content, e) ↦ elim (Option-cases (parse p content)) [
      | inl bad ↦ absurd (ground arith)
      | inr (item, good) ↦
          let named : text_eq
                (elim (strip_suffix entry.name md_suffix) [ none ↦ entry.name | some s ↦ s ])
                item.id
              ≡ true =
            ground arith in
          let same : item ≡ t = ground arith in
          (content, e, rw (← same) good, rw (← same) (stripped_name entry item.id file named))
    ]
  ]

  read_entries-Reads :
      (entries : List DirEntry) (tasks : List (Task Doc))
      → read_entries p entries ≡ ok tasks
      → Reads entries tasks
  unfolding read_entries
  read_entries-Reads [] tasks h = let e : tasks ≡ [] = ground arith in rw e nothing
  read_entries-Reads (entry ∷ entries) tasks h = elim (Bool-cases (is_task_file entry)) [
    | inl file ↦
        let (t, ts, first, rest, e) =
          and_read-eq-ok (read_entry p entry) (read_entries p entries) (rw file at h) in
        let (content, c, made, named) = read_entry-eq-ok entry t file first in
        rw e (parsed entry content t file c made named (read_entries-Reads entries ts rest))
    | inr other ↦ skipped entry other (read_entries-Reads entries tasks (rw other at h))
  ]

  -- A listing holds the task of every task file and no other, in ascending order of id; each
  -- file is named for the id of its task.
  pub list-IsSorted :
      (entries : List DirEntry) (tasks : List (Task Doc))
      → list p (holding entries) ≡ ok tasks
      → (read : List (Task Doc)) × Reads entries read × Perm tasks read × IsSorted tasks
  unfolding list
  list-IsSorted entries tasks h = go (read_entries p entries) refl
    where
      go :
          (r : Result (List (Task Doc)))
          → read_entries p entries ≡ r
          → (read : List (Task Doc)) × Reads entries read × Perm tasks read × IsSorted tasks
      go (err e) q = absurd (ground arith)
      go (ok read) q =
          let e : tasks ≡ sort_by_id read = ground arith in
          (
            read,
            read_entries-Reads entries read q,
            rw e (sort_by_id-perm read),
            rw e (sort_by_id-IsSorted read),
          )
