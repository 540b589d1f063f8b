-- ===== src/Queue/Remote/Uploading.antt =====
-- UploadArtifact of queue/remote.go.
use trilha_runner.Prelude.{
  ℕ, ◌==◌, Bool, false, ◌&&◌, [], ◌∷◌, ◌++◌, Option, none, some, Text, codes, text_eq, take,
  if◌then◌else◌,
}
use trilha_runner.Queue.Remote.{
  Request, Answer, Remote, Item, World, is_success, shown, authorization, lost, answered,
}

-- How an upload ends.
pub data Upload : Type 0 where
  accepted : Upload
  disabled : Upload  -- ErrArtifactsDisabled
  refused : ℕ → Text → Upload  -- a StatusError: its code and its body
  broken : Text → Upload

unfoldable pub is_disabled : Option Text → Bool
unfolding text_eq
is_disabled none = false
is_disabled (some code) = text_eq code (codes "ARTIFACTS_DISABLED")

unfoldable pub upload_answer : World → Answer → Upload
unfolding is_disabled
upload_answer w (lost e) = broken e
upload_answer w (answered code line body) =
    if is_success code
    then accepted
    else if code == 403 && is_disabled (w.decode_code (take 4096 body))
    then disabled
    else refused code (shown body)

-- UploadArtifact of a name, a content type, a checksum and bytes.
unfoldable pub upload_request : World → Remote → Item → Text → Text → Text → Text → Request
upload_request w r item name content_type sha256 bytes = record {
  method = codes "PUT";
  path =
      r.base_url
      ++ codes "/api/runs/"
      ++ w.path_escape item.id
      ++ codes "/artifacts/"
      ++ w.path_escape name;
  body = ([], bytes) ∷ [];
  headers =
      authorization r
      ++ ((codes "Content-Type", content_type) ∷ (codes "X-Artifact-SHA256", sha256) ∷ []);
}
