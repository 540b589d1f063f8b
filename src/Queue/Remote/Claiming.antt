-- ===== src/Queue/Remote/Claiming.antt =====
-- Next, DependencyStatus and Bundle of queue/remote.go.
use trilha_runner.Prelude.{
  ◌==◌, Bool, false, ◌||◌, not, List, [], ◌∷◌, ◌++◌, ◌⊎◌, inl, inr, Text, codes, text_eq, is_empty,
  cut, if◌then◌else◌,
}
use trilha_runner.Queue.Remote.{
  identity, Request, Answer, Remote, Item, Bundle, World, normalized_capabilities, is_success,
  posted, gotten, Got, refused_as, status_answer, lost, answered, failed, empty, value,
}

module _ (w : World) (r : Remote) where
  abbrev pub status_request : Text → Text → Request
  status_request project id = gotten r (
      codes "/api/projects/"
      ++ w.path_escape project
      ++ codes "/tasks/"
      ++ w.path_escape id
      ++ codes "?requesting_project="
      ++ w.query_escape r.project)

  -- DependencyStatus
  abbrev pub dependency_status : Text → Text → List Request → List Request × (Text ⊎ Text)
  dependency_status project id past =
      let q = status_request project id in (past ++ (q ∷ []), status_answer w (w.answer past q))

  unfoldable pub is_done : Text ⊎ Text → Bool
  unfolding text_eq
  is_done (inl e) = false
  is_done (inr status) = text_eq status (codes "done")

  -- The loop of Next over the dependencies of an item: what it waits for, empty when for nothing.
  unfoldable pub first_open : List Text → List Request → List Request × Text
  unfolding cut is_done
  first_open [] past = (past, [])
  first_open (dependency ∷ more) past =
      let (alias, id, remote) = cut dependency b':' in
      let (asked, status) = dependency_status alias id past in
      let skipped = first_open more past in
      let later = first_open more asked in
      if not remote
      then skipped
      else if is_done status
      then later
      else (asked, codes "waiting:" ++ dependency)

  abbrev pub with_waiting : Item → List Request × Text → List Request × Got Item
  with_waiting item (past, waiting) =
      (past, value (if is_empty waiting then item else record item { waiting = waiting }))

  unfoldable pub item_answer : List Request → Text ⊎ Item → List Request × Got Item
  unfolding first_open
  item_answer past (inl e) = (past, failed e)
  item_answer past (inr item) = with_waiting item (first_open item.depends_on past)

  unfoldable pub next_answer : List Request → Answer → List Request × Got Item
  unfolding item_answer
  next_answer past (lost e) = (past, failed e)
  next_answer past (answered code line body) =
      if code == 204
      then (past, empty)
      else if code == 200
      then item_answer past (w.decode_item body)
      else (past, failed (refused_as (codes "queue: ") line body))

  -- Next
  unfoldable pub next_item : List Request → List Request × Got Item
  unfolding next_answer
  next_item past =
      let q = posted r (codes "/api/runs/next") (
        identity r
        ++ ((codes "capabilities", w.encode (normalized_capabilities r.capabilities)) ∷ [])) in
      next_answer (past ++ (q ∷ [])) (w.answer past q)

  unfoldable pub bundle_value : Item → Text ⊎ Bundle → Got Bundle
  unfolding text_eq
  bundle_value item (inl e) = failed e
  bundle_value item (inr b) =
      if not (b.version == 1)
        || not (text_eq b.run_id item.id)
        || not (text_eq b.project item.project)
        || not (text_eq b.task item.task_id)
      then failed (codes "queue: invalid work bundle")
      else value b

  unfoldable pub bundle_answer : Item → Answer → Got Bundle
  unfolding bundle_value
  bundle_answer item (lost e) = failed e
  bundle_answer item (answered code line body) =
      if code == 404
      then empty
      else if is_success code
      then bundle_value item (w.decode_bundle body)
      else failed (refused_as (codes "queue: bundle: ") line body)

  -- Bundle; `empty` is ErrNoBundle.
  unfoldable pub bundle_of : Item → List Request → List Request × Got Bundle
  unfolding bundle_answer
  bundle_of item past =
      let q = gotten r (codes "/api/runs/" ++ item.id ++ codes "/bundle") in
      (past ++ (q ∷ []), bundle_answer item (w.answer past q))
