-- ===== src/Worker/Sendings.antt =====
-- Uploads of two artifacts, and a claim, against a small control plane.
use trilha_runner.Prelude.{
  ◌==◌, ◌≡◌, ◌≤◌, ◌*◌, refl, false, List, [], ◌∷◌, none, some, Text, codes, inl, inr, length, pos,
  negsuc, text_eq, cut, if◌then◌else◌, is_empty,
}
use trilha_runner.Queue.Remote.{
  Request, Answer, Remote, Item, World, Got, answered, failed, empty, value,
}
use trilha_runner.Queue.Remote.Claiming.{is_done, first_open, item_answer, next_answer, next_item}
use trilha_runner.Queue.Remote.Uploading.{is_disabled, upload_answer, upload_request}
use trilha_runner.Worker.Outbox.{is_retryable}
use trilha_runner.Worker.Uploads.{
  Artifact, Scene, may_retry, request_for, answer_to, attempts_from, upload_one, after_read,
  upload_from, list_of, upload_artifacts,
}
use trilha_runner.Worker.Sending.{Sent, upload_artifacts-Sent}

abbrev plane : (List Request → Request → Answer) → World
plane answers = record {
  answer = answers;
  path_escape = λ t. t;
  query_escape = λ t. t;
  encode = λ capabilities. codes "{}";
  decode_item = λ body. inr (record {
    id = codes "r1";
    project = codes "shop";
    task_id = codes "TASK-001";
    depends_on = codes "TASK-000" ∷ codes "api:TASK-002" ∷ codes "web:TASK-003" ∷ [];
    waiting = [];
  });
  decode_status = λ body. inr body;
  decode_bundle = λ body. inl (codes "no bundle");
  decode_deployment = λ body. inl (codes "no deployment");
  decode_code = λ body. some body;
}

abbrev runner : Remote
runner = record {
  base_url = codes "http://cloud";
  token = codes "t";
  worker = codes "w1";
  project = codes "shop";
  capabilities = record { labels = []; capacity = pos 0; running = negsuc 2 };
}

abbrev run : Item
run = record {
  id = codes "r1";
  project = codes "shop";
  task_id = codes "TASK-001";
  depends_on = [];
  waiting = [];
}

-- Busy twice, and then well.
abbrev busy : List Request → Request → Answer
busy past q =
    if length past == 2
    then answered 201 (codes "201 Created") []
    else answered 503 (codes "503 Busy") []

abbrev closed : List Request → Request → Answer
closed past q = answered 403 (codes "403 Forbidden") (codes "ARTIFACTS_DISABLED")

abbrev scene : (List Request → Request → Answer) → Scene
scene answers = record {
  world = plane answers;
  remote = runner;
  read = λ path. if is_empty path then none else some (codes "bytes");
  is_ended = λ past. false;
}

abbrev report : Text → Artifact
report path = record {
  name = codes "r.md";
  content_type = codes "text/markdown";
  sha256 = codes "0";
  path = path;
}

abbrev reports : List Artifact
reports = report [] ∷ report (codes "/a") ∷ report (codes "/b") ∷ []

-- The first is not there, the second is taken at the third time, and the third never.
taken : upload_artifacts (scene busy) run reports ≡ report (codes "/a") ∷ []
unfolding upload_artifacts upload_from after_read upload_one attempts_from may_retry answer_to
    request_for upload_request upload_answer is_retryable is_disabled
taken = refl

none_taken : upload_artifacts (scene closed) run reports ≡ []
unfolding upload_artifacts upload_from after_read upload_one attempts_from may_retry answer_to
    request_for upload_request upload_answer is_retryable is_disabled text_eq
none_taken = refl

-- The control plane hands out an item; the first dependency elsewhere is done, the other is not.
abbrev claims : List Request → Request → Answer
claims past q =
    if length past == 1
    then answered 200 (codes "200 OK") (codes "done")
    else answered 200 (codes "200 OK") (codes "running")

abbrev waiting_of : Got Item → Text
waiting_of (failed e) = codes "failed"
waiting_of empty = codes "empty"
waiting_of (value item) = item.waiting

waits : waiting_of (next_item (plane claims) runner []).1 ≡ codes "waiting:web:TASK-003"
unfolding next_item next_answer item_answer first_open is_done cut text_eq
waits = refl

upload_artifacts-Sent_example :
    Sent (scene busy) run reports [] (upload_from (scene busy) run reports [])
    × (upload_artifacts (scene busy) run reports
        ≡ list_of (scene busy) run (upload_from (scene busy) run reports []).1)
    × (length (upload_from (scene busy) run reports []).0 ≤ 3 * length reports)
upload_artifacts-Sent_example = upload_artifacts-Sent (scene busy) run reports
