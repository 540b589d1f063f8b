-- ===== src/Worker/Uploads.antt =====
-- uploadArtifacts of cmd/trilha-runner/worker.go, over UploadArtifact of queue/remote.go.
use trilha_runner.Prelude.{
  ℕ, zero, suc, ◌+◌, ◌==◌, Bool, true, false, ◌||◌, not, List, [], ◌∷◌, ◌++◌, Option, none, some,
  Text, if◌then◌else◌,
}
use trilha_runner.Queue.Remote.{World, Remote, Item, Request}
use trilha_runner.Queue.Remote.Uploading.{
  Upload, accepted, disabled, refused, broken, upload_answer, upload_request,
}
use trilha_runner.Worker.Outbox.{is_retryable}

pub record Artifact : Type 0 where
  pub name : Text
  pub content_type : Text
  pub sha256 : Text
  pub path : Text

-- The control plane, the files, and whether the worker's context has ended after some requests.
pub record Scene : Type 0 where
  pub world : World
  pub remote : Remote
  pub read : Text → Option Text
  pub is_ended : List Request → Bool

-- The variable `retryable`: no answer, or a status that may be another one later.
unfoldable pub may_retry : Upload → Bool
unfolding is_retryable
may_retry accepted = false
may_retry disabled = false
may_retry (refused code body) = is_retryable code
may_retry (broken e) = true

module _ (c : Scene) (item : Item) where
  unfoldable pub request_for : Artifact → Text → Request
  unfolding upload_request
  request_for a bytes = upload_request c.world c.remote item a.name a.content_type a.sha256 bytes

  unfoldable pub answer_to : List Request → Request → Upload
  unfolding upload_answer
  answer_to past q = upload_answer c.world (c.world.answer past q)

  -- The loop over the attempts of one upload, which the fuel bounds: `none` when it ran out.
  unfoldable pub attempts_from : ℕ → ℕ → Request → List Request → List Request × Option Upload
  unfolding may_retry answer_to
  attempts_from zero attempt q past = (past, none)
  attempts_from (suc left) attempt q past =
      let u = answer_to past q in
      let sent = past ++ (q ∷ []) in
      let again = attempts_from left (attempt + 1) q sent in
      if not (may_retry u) || attempt == 3 || c.is_ended sent then (sent, some u) else again

  unfoldable pub upload_one : Request → List Request → List Request × Option Upload
  unfolding attempts_from
  upload_one q past = attempts_from 3 1 q past

  abbrev pub with_accepted :
      Artifact → List Request × Option (List Artifact) → List Request × Option (List Artifact)
  with_accepted a (past, none) = (past, none)
  with_accepted a (past, some rest) = (past, some (a ∷ rest))

  abbrev pub after_upload :
      Artifact
      → (List Request → List Request × Option (List Artifact))
      → List Request × Option Upload
      → List Request × Option (List Artifact)
  after_upload a rest (past, some accepted) = with_accepted a (rest past)
  after_upload a rest (past, some disabled) = (past, none)
  after_upload a rest (past, _) = rest past

  unfoldable pub after_read :
      Artifact
      → (List Request → List Request × Option (List Artifact))
      → List Request
      → Option Text
      → List Request × Option (List Artifact)
  unfolding upload_one request_for
  after_read a rest past none = rest past
  after_read a rest past (some bytes) = after_upload a rest (upload_one (request_for a bytes) past)

  -- The loop over the artifacts: those accepted, or none when the project takes no artifacts.
  unfoldable pub upload_from : List Artifact → List Request → List Request × Option (List Artifact)
  unfolding after_read
  upload_from [] past = (past, some [])
  upload_from (a ∷ more) past = after_read a (upload_from more) past (c.read a.path)

  abbrev pub list_of : Option (List Artifact) → List Artifact
  list_of none = []
  list_of (some l) = l

  -- uploadArtifacts
  unfoldable pub upload_artifacts : List Artifact → List Artifact
  unfolding upload_from
  upload_artifacts artifacts = list_of (upload_from artifacts []).1
