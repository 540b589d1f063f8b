-- ===== src/Queue/Remote/Reporting.antt =====
-- Heartbeat, Progress, NextDeployment and DoneDeployment of queue/remote.go.
use trilha_runner.Prelude.{
  ◌==◌, ◌||◌, not, List, [], ◌∷◌, ◌++◌, ◌⊎◌, inl, inr, Option, none, some, Text, codes, text_eq,
  is_empty, if◌then◌else◌,
}
use trilha_runner.Queue.Remote.{
  identity, Request, Answer, Remote, Item, Deployment, World, normalized_capabilities, is_success,
  posted, Got, refused_as, lost, answered, failed, empty, value,
}

module _ (w : World) (r : Remote) where
  -- The error of Progress and DoneDeployment, which differ in their words.
  abbrev pub sent_error : Text → Answer → Option Text
  sent_error words (lost e) = some e
  sent_error words (answered code line body) =
      if is_success code then none else some (refused_as words line body)

  abbrev pub heartbeat_error : Answer → Option Text
  heartbeat_error (lost e) = some e
  heartbeat_error (answered code line body) =
      if is_success code then none else some (codes "queue: heartbeat: " ++ line)

  -- Heartbeat, of at most one error text.
  unfoldable pub heartbeat : Text → Text → List Request → List Request × Option Text
  heartbeat status error past =
      let q = posted r (codes "/api/workers/heartbeat") (
        (codes "name", r.worker)
        ∷ (codes "project", r.project)
        ∷ (codes "status", status)
        ∷ (codes "error", error)
        ∷ (codes "capabilities", w.encode (normalized_capabilities r.capabilities))
        ∷ []) in
      (past ++ (q ∷ []), heartbeat_error (w.answer past q))

  -- Progress
  unfoldable pub progress : Item → List (Text × Text) → List Request → List Request × Option Text
  progress item event past =
      let q = posted r (codes "/api/runs/" ++ item.id ++ codes "/progress") event in
      (past ++ (q ∷ []), sent_error (codes "queue: progress: ") (w.answer past q))

  unfoldable pub deployment_value : Text ⊎ Deployment → Got Deployment
  unfolding text_eq
  deployment_value (inl e) = failed e
  deployment_value (inr d) =
      if is_empty d.id || not (text_eq d.project r.project) || is_empty d.profile
      then failed (codes "queue: invalid deployment work")
      else value d

  unfoldable pub deployment_answer : Answer → Got Deployment
  unfolding deployment_value
  deployment_answer (lost e) = failed e
  deployment_answer (answered code line body) =
      if code == 204
      then empty
      else if is_success code
      then deployment_value (w.decode_deployment body)
      else failed (refused_as (codes "queue: deployment: ") line body)

  -- NextDeployment
  unfoldable pub next_deployment : List Request → List Request × Got Deployment
  unfolding deployment_answer
  next_deployment past =
      let q = posted r (codes "/api/deployments/next") (identity r) in
      (past ++ (q ∷ []), deployment_answer (w.answer past q))

  -- DoneDeployment; the fields of the result, with the worker and the project set.
  unfoldable pub done_deployment :
      Deployment → List (Text × Text) → List Request → List Request × Option Text
  done_deployment d fields past =
      let q =
        posted r (codes "/api/deployments/" ++ d.id ++ codes "/result") (identity r ++ fields) in
      (past ++ (q ∷ []), sent_error (codes "queue: deployment result: ") (w.answer past q))
