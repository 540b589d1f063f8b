-- ===== src/Queue.antt =====
-- queue/queue.go, type Local: the dependency graph of a checkout as its own queue, and the
-- --repo flag. The context argument is unused there and left out.
mod Blocking
mod Verdicts
mod Next
mod Repositories
pub mod Remote
mod Tests
use trilha_runner.Prelude.{
  ℕ, ◌≡◌, Bool, true, false, ◌||◌, ◌&&◌, not, is_some, List, [], ◌∷◌, ◌++◌, Option, none, some,
  codes, Text, text_eq, is_empty, has_prefix, cut, contains_byte, trim_space, if◌then◌else◌,
}
use trilha_runner.Tasks.{
  Status, Task, Files, Protocol, Error, Result, ok, err, status_eq, list, DirEntry,
}

-- What Next answers: an item, a BlockedError, ErrEmpty, or the error of the listing.
pub data NextResult : Type 0 where
  item : Text → NextResult
  blocked : Text → Text → NextResult
  empty : NextResult
  failed : Error → NextResult

-- A Go map from strings, read with "" for a key that is not there.
pub repository_root : List (Text × Text) → Text → Text
unfolding text_eq
repository_root [] alias = []
repository_root ((name, root) ∷ rs) alias =
    if text_eq name alias then root else repository_root rs alias

abbrev pub waiting_prefix : Text
waiting_prefix = codes "waiting:"

module _ {Doc : Type 0} where
  -- The map of the tasks by id that the loop fills: a later task replaces an earlier one.
  pub find_task : List (Task Doc) → Text → Option (Task Doc)
  unfolding text_eq
  find_task [] id = none
  find_task (t ∷ ts) id =
      let later = find_task ts id in
      if is_some later then later else if text_eq t.id id then some t else none

  abbrev pub is_done : Option (Task Doc) → Bool
  is_done none = false
  is_done (some t) = status_eq t.status Status.done

module _ {Doc : Type 0} (p : Protocol Doc) (repositories : List (Text × Text)) where
  -- The task of another checkout: task.Open, then Get.
  abbrev remote_task : Text → Text → Option (Task Doc)
  remote_task root id = elim (p.open_store root) [ none ↦ none | some files ↦ p.store_get files id ]

  -- One round of the loop of `blocker`: the reason that it returns, or `none` to go on.
  abbrev remote_reason : Text → Text → Text → Option Text
  unfolding repository_root
  remote_reason dependency alias id =
      let root = repository_root repositories alias in
      if is_empty root || not (is_done (remote_task root id))
      then some (waiting_prefix ++ dependency)
      else none

  pub reason : List (Task Doc) → Text → Option Text
  unfolding remote_reason find_task cut
  reason tasks dependency =
      let (alias, id, remote) = cut dependency b':' in
      if remote
      then remote_reason dependency alias id
      else if is_done (find_task tasks dependency)
      then none
      else some dependency

  pub blocker : List (Task Doc) → List Text → Text
  unfolding reason
  blocker tasks [] = []
  blocker tasks (d ∷ ds) =
      let rest = blocker tasks ds in elim (reason tasks d) [ none ↦ rest | some r ↦ r ]

  abbrev end_result : Option (Text × Text) → NextResult
  end_result none = empty
  end_result (some (id, why)) = blocked id why

  -- firstBlocked after a candidate that is blocked for the reason `why`.
  abbrev note_blocked : Option (Text × Text) → Text → Text → Option (Text × Text)
  note_blocked (some b) id why = some b
  note_blocked none id why = if has_prefix why waiting_prefix then some (id, why) else none

  -- The loop of Next over the candidates, with firstBlocked.
  next_from : List (Task Doc) → Option (Text × Text) → List (Task Doc) → NextResult
  unfolding blocker
  next_from tasks first [] = end_result first
  next_from tasks first (c ∷ cs) =
      let why = blocker tasks c.depends_on in
      let skip = next_from tasks first cs in
      let wait = next_from tasks (note_blocked first c.id why) cs in
      if not (status_eq c.status Status.ready)
      then skip
      else if is_empty why
      then item c.id
      else wait

  pub next : Result (List (Task Doc)) → NextResult
  unfolding next_from has_prefix
  next (err e) = failed e
  next (ok tasks) = next_from tasks none tasks

-- ParseRepository; `none` is its error.
pub parse_repository : Text → Option (Text × Text)
unfolding cut trim_space contains_byte
parse_repository value =
    let (left, right, found) = cut value b'=' in
    let alias = trim_space left in
    let path = trim_space right in
    if not found || is_empty alias || is_empty path || contains_byte alias b':'
    then none
    else some (alias, path)
