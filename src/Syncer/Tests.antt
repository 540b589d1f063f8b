-- ===== src/Syncer/Tests.antt =====
-- The syncer on a small bundle.
use trilha_runner.Prelude.{
  ◌≡◌, refl, true, false, List, [], ◌∷◌, Text, codes, text_eq, if◌then◌else◌,
}
use trilha_runner.Tasks.{Status}
use trilha_runner.Syncer.{
  BundleTask, absent, present, Store, slug, protocol_status, may_write, write_tasks,
}
use trilha_runner.Syncer.Names.{is_tidy, ends_in_dash, slug_lem}

abbrev title : Text
title = codes "  The API, v2!"

slug_lem_example : (is_tidy true (slug title) ≡ true) × (ends_in_dash (slug title) ≡ false)
slug_lem_example = slug_lem title

slug_of_title : slug title ≡ codes "the-api-v2"
unfolding slug
slug_of_title = refl

abbrev cloud : Text
cloud = codes "spec-1"

abbrev bundle : List BundleTask
bundle =
    record { id = codes "TASK-001"; status = codes "done" }
    ∷ record { id = codes "TASK-002"; status = codes "idea" }
    ∷ []

abbrev store : Store
unfolding text_eq
store id =
    if text_eq id (codes "TASK-003")
    then present (record { cloud_id = codes "spec-9"; status = Status.done })
    else absent

own_task_ready :
    ((write_tasks cloud (codes "TASK-002") (λ id. true) bundle store).0 (codes "TASK-002")
      ≡ present (record { cloud_id = cloud; status = Status.ready }))
    × ((write_tasks cloud (codes "TASK-002") (λ id. true) bundle store).0 (codes "TASK-001")
        ≡ present (record { cloud_id = cloud; status = Status.done }))
unfolding write_tasks may_write protocol_status text_eq
own_task_ready = (refl, refl)
