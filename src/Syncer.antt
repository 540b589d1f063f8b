-- ===== src/Syncer.antt =====
-- syncer/syncer.go: the names of branches, and the task files that Materialize writes.
mod Names
mod Ownership
mod Tests
use trilha_runner.Prelude.{
  ℕ, leb, ◌==◌, Bool, true, false, ◌&&◌, ◌||◌, not, List, [], ◌∷◌, Option, none, some, Text, codes,
  text_eq, is_empty, to_lower, trim, if◌then◌else◌,
}
use trilha_runner.Tasks.{Status}

abbrev pub is_slug_byte : ℕ → Bool
is_slug_byte c = (leb b'a' c && leb c b'z') || (leb b'0' c && leb c b'9')

abbrev pub is_dash : ℕ → Bool
is_dash c = c == b'-'

-- What the loop of slug writes, from whether it has written anything and whether a dash came last.
unfoldable pub slug_from : Bool → Bool → Text → Text
slug_from started dash [] = []
slug_from started dash (c ∷ s) =
    let word = slug_from true false s in
    let gap = slug_from true true s in
    let rest = slug_from started dash s in
    if is_slug_byte c then c ∷ word else if not dash && started then b'-' ∷ gap else rest

unfoldable pub slug : Text → Text
unfolding slug_from to_lower trim
slug value = trim is_dash (slug_from false false (to_lower value))

unfoldable pub protocol_status : Text → Status
unfolding text_eq
protocol_status value =
    if text_eq value (codes "ready")
    then Status.ready
    else if text_eq value (codes "running")
    then Status.running
    else if text_eq value (codes "review")
    then Status.review
    else if text_eq value (codes "blocked")
    then Status.blocked
    else if text_eq value (codes "done")
    then Status.done
    else Status.idea

-- A task of a bundle, and what its file says that the syncer reads or decides.
pub record BundleTask : Type 0 where
  pub id : Text
  pub status : Text

pub record Stored : Type 0 where
  pub cloud_id : Text
  pub status : Status

pub data TaskFile : Type 0 where
  absent unreadable : TaskFile
  present : Stored → TaskFile

abbrev pub Store : Type 0
Store = Text → TaskFile

abbrev pub put : Store → Text → TaskFile → Store
put store id file other = if text_eq other id then file else store other

-- refuseDivergentTask: whether the file may be written for the cloud record.
unfoldable pub may_write : Text → TaskFile → Bool
may_write cloud absent = true
may_write cloud unreadable = false
may_write cloud (present t) = not (is_empty t.cloud_id) && text_eq t.cloud_id cloud

module _ (cloud chosen : Text) (saves : Text → Bool) where
  -- The bundle's own task is ready, whatever its status.
  abbrev pub written : BundleTask → Stored
  written t = record {
    cloud_id = cloud;
    status = if text_eq t.id chosen then Status.ready else protocol_status t.status;
  }

  -- The loops of Materialize over the stages and their tasks, in order: the store that they leave,
  -- and whether they came to the end.
  unfoldable pub write_tasks : List BundleTask → Store → Store × Bool
  write_tasks [] store = (store, true)
  write_tasks (t ∷ ts) store =
      let rest = write_tasks ts (put store t.id (present (written t))) in
      if not (may_write cloud (store t.id))
      then (store, false)
      else if not (saves t.id)
      then (store, false)
      else rest
