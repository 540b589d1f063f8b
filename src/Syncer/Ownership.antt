-- ===== src/Syncer/Ownership.antt =====
-- Whose task files Materialize writes.
use trilha_runner.Prelude.{Bool, true, false, ◌&&◌, ◌||◌, not, Text, text_eq}
use trilha_runner.Tasks.{Status}
use trilha_runner.Syncer.{TaskFile, present}

module _ (cloud chosen : Text) (saves : Text → Bool) where
  -- A file of the cloud record, ready where it is the bundle's own task.
  abbrev pub is_ready : Status → Bool
  is_ready Status.ready = true
  is_ready _ = false

  abbrev pub is_ours : Text → TaskFile → Bool
  is_ours id (present t) =
      text_eq t.cloud_id cloud && (not (text_eq id chosen) || is_ready t.status)
  is_ours id _ = false
