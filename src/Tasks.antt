-- ===== src/Tasks.antt =====
-- internal/taskcompat/taskcompat.go: reading and moving the tasks of .trilha/tasks, with the
-- cross-repository dependencies that trilha-spec itself does not accept.
-- The packages spec and task of trilha-spec enter as the record `Protocol`.
mod Parsing
mod Moving
mod Listing
pub mod Samples
mod Tests
use trilha_runner.Prelude.{
  ℕ, Bool, true, false, ◌||◌, ◌&&◌, not, strip_suffix, text_lt, is_some, List, [], ◌∷◌, Option,
  none, some, codes, Text, text_eq, contains_byte, if◌then◌else◌,
}

-- The statuses of the protocol that the program names.
pub data Status : Type 0 where
  idea ready running verify review blocked done failed : Status

pub Status-discrete : Discrete Status
Status-discrete = hlevel

abbrev pub status_eq : Status → Status → Bool
status_eq idea idea = true
status_eq ready ready = true
status_eq running running = true
status_eq verify verify = true
status_eq review review = true
status_eq blocked blocked = true
status_eq done done = true
status_eq failed failed = true
status_eq _ _ = false

-- What the program reads and writes of a task. `Doc` is the parsed front matter.
pub record Task (Doc : Type 0) : Type 0 where
  pub id : Text
  pub status : Status
  pub depends_on : List Text
  pub updated : ℕ
  pub agent : Text
  pub checks : List Text
  pub fields : Doc

-- The files of a tasks directory, by the id that names them.
abbrev pub Files : Type 0
Files = List (Text × Text)

-- The calls of trilha-spec.
pub record Protocol (Doc : Type 0) : Type 0 where
  pub parse_doc : Text → Option Doc  -- spec.Parse
  pub get_list : Doc → Text → List Text  -- Fields.GetList
  pub set_list : Doc → Text → List Text → Doc  -- Fields.SetList
  pub doc_bytes : Doc → Text  -- Bytes of a document
  pub parse_task : Text → Option (Task Doc)  -- task.Parse
  pub task_bytes : Task Doc → Text  -- Bytes of a task
  pub task_move : Task Doc → Status → Option (Task Doc)  -- Task.Move
  pub store_move : Files → Text → Status → Option Files  -- Store.Move
  pub open_store : Text → Option Files  -- task.Open of a checkout
  pub store_get : Files → Text → Option (Task Doc)  -- Store.Get

pub data Error : Type 0 where
  not_found : Text → Error
  not_parsed : Text → Error
  not_read : Text → Error
  no_listing : Error
  disagree : Text → Text → Error

pub data Result {ℓ} (A : Type ℓ) : Type ℓ where
  ok : A → Result A
  err : Error → Result A

abbrev pub depends_on_key : Text
depends_on_key = codes "depends_on"

unfoldable pub has_remote : List Text → Bool
unfolding contains_byte
has_remote [] = false
has_remote (d ∷ ds) = contains_byte d b':' || has_remote ds

pub local_dependencies : List Text → List Text
unfolding contains_byte
local_dependencies [] = []
local_dependencies (d ∷ ds) =
    let rest = local_dependencies ds in if contains_byte d b':' then rest else d ∷ rest

pub read_file : Files → Text → Option Text
unfolding text_eq
read_file [] id = none
read_file ((name, content) ∷ files) id =
    if text_eq name id then some content else read_file files id

pub write_file : Files → Text → Text → Files
unfolding text_eq
write_file [] id content = (id, content) ∷ []
write_file ((name, old) ∷ files) id content =
    if text_eq name id then (id, content) ∷ files else (name, old) ∷ write_file files id content

module _ {Doc : Type 0} (p : Protocol Doc) where
  open p use {parse_doc, get_list, set_list, doc_bytes, parse_task, task_bytes}

  abbrev with_remote : Doc → List Text → Option (Task Doc) → Option (Task Doc)
  with_remote original dependencies none = none
  with_remote original dependencies (some item) =
      some (record item { depends_on = dependencies; fields = original })

  -- The document is parsed twice, as the program does: one copy stays as it is, and trilha-spec
  -- sees the other, without the remote dependencies.
  abbrev sanitize : Doc → List Text → Option Doc → Option (Task Doc)
  unfolding local_dependencies
  sanitize original dependencies none = none
  sanitize original dependencies (some sanitized) =
      with_remote original dependencies (
        parse_task
          (doc_bytes (set_list sanitized depends_on_key (local_dependencies dependencies))))

  abbrev parse_from : Text → Option Doc → Option (Task Doc)
  unfolding has_remote
  parse_from content none = none
  parse_from content (some original) =
      let dependencies = get_list original depends_on_key in
      if not (has_remote dependencies)
      then parse_task content
      else sanitize original dependencies (parse_doc content)

  pub parse : Text → Option (Task Doc)
  unfolding parse_from sanitize
  parse content = parse_from content (parse_doc content)

  abbrev got : Text → Option Text → Result (Task Doc)
  unfolding parse
  got id none = err (not_found id)
  got id (some content) = elim (parse content) [ none ↦ err (not_parsed id) | some t ↦ ok t ]

  pub get : Files → Text → Result (Task Doc)
  unfolding got read_file
  get files id = got id (read_file files id)

  pub save : Files → Task Doc → Files
  unfolding write_file
  save files item = write_file files item.id (task_bytes item)

-- One entry of the tasks directory; `content` is what reading the file gives.
pub record DirEntry : Type 0 where
  pub name : Text
  pub is_dir : Bool
  pub content : Option Text

-- What os.ReadDir answers for the directory of the tasks.
pub data Directory : Type 0 where
  not_there unreadable : Directory
  holding : List DirEntry → Directory

abbrev pub md_suffix : Text
md_suffix = codes ".md"

-- The loop's `continue`: directories and files of another suffix.
abbrev pub is_task_file : DirEntry → Bool
is_task_file entry = not entry.is_dir && is_some (strip_suffix entry.name md_suffix)

module _ {Doc : Type 0} where
  unfoldable pub insert_by_id : Task Doc → List (Task Doc) → List (Task Doc)
  insert_by_id x [] = x ∷ []
  insert_by_id x (y ∷ ys) = if text_lt y.id x.id then y ∷ insert_by_id x ys else x ∷ y ∷ ys

  -- sort.Slice by id: the ids of a listing are the file names, so no two are equal.
  unfoldable pub sort_by_id : List (Task Doc) → List (Task Doc)
  unfolding insert_by_id
  sort_by_id [] = []
  sort_by_id (x ∷ xs) = insert_by_id x (sort_by_id xs)

  abbrev pub map_ok :
      (List (Task Doc) → List (Task Doc)) → Result (List (Task Doc)) → Result (List (Task Doc))
  map_ok f (ok tasks) = ok (f tasks)
  map_ok f (err e) = err e

module _ {Doc : Type 0} (p : Protocol Doc) where
  abbrev check_name : DirEntry → Option (Task Doc) → Result (Task Doc)
  check_name entry none = err (not_parsed entry.name)
  check_name entry (some item) =
      if text_eq (elim (strip_suffix entry.name md_suffix) [ none ↦ entry.name | some t ↦ t ])
        item.id
      then ok item
      else err (disagree entry.name item.id)

  read_entry : DirEntry → Result (Task Doc)
  unfolding parse
  read_entry entry = elim entry.content [
    | none ↦ err (not_read entry.name)
    | some content ↦ check_name entry (parse p content)
  ]

  abbrev and_read : Result (Task Doc) → Result (List (Task Doc)) → Result (List (Task Doc))
  and_read (err e) rest = err e
  and_read (ok item) rest = map_ok (λ tasks. item ∷ tasks) rest

  -- The loop over the entries: the first entry that fails ends it.
  read_entries : List DirEntry → Result (List (Task Doc))
  unfolding read_entry
  read_entries [] = ok []
  read_entries (entry ∷ entries) =
      let rest = read_entries entries in
      if is_task_file entry then and_read (read_entry entry) rest else rest

  -- List
  unfoldable pub list : Directory → Result (List (Task Doc))
  unfolding read_entries sort_by_id strip_suffix text_eq text_lt
  list not_there = ok []
  list unreadable = err no_listing
  list (holding entries) = map_ok sort_by_id (read_entries entries)

  abbrev moved_copy : Files → Task Doc → Option (Task Doc) → Option (Task Doc × Files)
  unfolding save
  moved_copy files item none = none
  moved_copy files item (some copy) =
      let item' = record item { status = copy.status; updated = copy.updated } in
      some (item', save p files item')

  -- Move: the item as the caller holds it afterwards, and the files. A local task is moved in the
  -- store alone, and the caller's item keeps its status.
  unfoldable pub move : Files → Task Doc → Status → Option (Task Doc × Files)
  unfolding moved_copy has_remote local_dependencies
  move files item to =
      if not (has_remote item.depends_on)
      then elim (p.store_move files item.id to) [ none ↦ none | some files' ↦ some (item, files') ]
      else moved_copy files item
          (p.task_move (record item { depends_on = local_dependencies item.depends_on }) to)
