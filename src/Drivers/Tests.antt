-- ===== src/Drivers/Tests.antt =====
-- Sessions of tools, hosts and arguments of the drivers.
use trilha_runner.Prelude.{
  ◌≡◌, true, false, refl, List, [], ◌∷◌, ◌⊎◌, ◌↔◌, inr, none, some, is_empty, Text, codes, text_eq,
  contains_byte, has_prefix, strip_suffix, trim_space, trim_left, trim_right, is_space, to_lower,
  fields, Any,
}
use trilha_runner.Deployer.Health.{joined}
use trilha_runner.Agents.Findings.{ext, contains_text}
use trilha_runner.Drivers.{Job, has_suffix, matches_host, some_host, validate_allowed_host, review}
use trilha_runner.Drivers.Hosts.{Matches, validate_allowed_host-Any}
use trilha_runner.Drivers.Tools.{
  Call, World, joined_by_nul, some_command, allowed_command, is_verdict, is_document, used, Session,
  fresh, heard, signalled, called, session, tool_start, tool_end, ask, verdict, write_file,
  run_check, ask_person, give_verdict, answer_comment,
}
use trilha_runner.Drivers.Sessions.{IsOrderly, session-IsOrderly}
use trilha_runner.Drivers.Claude.{has_groups, valid_session_id, is_model}

abbrev review_job : Job
review_job = record {
  task = codes "TASK-001";
  prompt = codes "Review.";
  dir = codes "/w";
  command = [];
  env = codes "A=1" ∷ [];
  allowed_checks = codes "go test" ∷ [];
  prefix = [];
  is_heard = true;
  run_dir = [];
  self = [];
  resume = codes "0123abcd-0123-4567-89ab-0123456789ab";
  kind = review;
  is_read_only = false;
  reply_to = codes "c1" ∷ [];
}

abbrev world : World
unfolding fields
world = record {
  split = fields;
  validate = λ f. none;
  work = λ call. inr (codes "ok");
  may_write = true;
  may_run = true;
}

abbrev calls : List Call
calls =
    run_check (codes "go  test")
    ∷ give_verdict (codes "pass")
    ∷ answer_comment (codes "c2") (codes "no")
    ∷ ask_person (codes "Which?")
    ∷ write_file (codes "a")
    ∷ write_file (codes "a")
    ∷ write_file (codes "a")
    ∷ []

unfoldable played : Session
unfolding session called signalled used heard allowed_command some_command joined_by_nul text_eq
    contains_text is_verdict is_document ext joined fields trim_space trim_left trim_right is_space
played = session world review_job calls fresh

stops : played.is_stopped ≡ true
unfolding played
stops = refl

one_check : played.worked ≡ run_check (codes "go  test") ∷ []
unfolding played
one_check = refl

spoken :
    played.log
    ≡ ask (codes "Which?")
      ∷ tool_end
      ∷ tool_start
      ∷ tool_end
      ∷ verdict (codes "pass")
      ∷ tool_start
      ∷ tool_end
      ∷ tool_start
      ∷ []
unfolding played
spoken = refl

extension : ext (codes "/a.b/c.tar.md") ≡ codes ".md"
unfolding ext contains_byte
extension = refl

resumed : valid_session_id review_job.resume ≡ true
unfolding valid_session_id has_groups
resumed = refl

no_dash_model : is_model (codes "--x") ≡ false
unfolding is_model
no_dash_model = refl

session-IsOrderly_example : IsOrderly world review_job (session world review_job calls fresh)
session-IsOrderly_example = session-IsOrderly world review_job calls

validate_allowed_host-Any_example :
    (validate_allowed_host (some (codes "API.x.com")) (codes "*.X.com" ∷ []) ≡ none) ↔ (
      (codes "*.X.com" ∷ [] ≡ [])
      ⊎ ((name : Text) × (some (codes "API.x.com") ≡ some name)
          × (is_empty name ≡ false)
          × Any (Matches (to_lower name)) (codes "*.X.com" ∷ [])))
validate_allowed_host-Any_example =
    validate_allowed_host-Any (some (codes "API.x.com")) (codes "*.X.com" ∷ [])

let_through : validate_allowed_host (some (codes "API.x.com")) (codes "*.X.com" ∷ []) ≡ none
unfolding validate_allowed_host some_host matches_host has_suffix text_eq has_prefix strip_suffix
    trim_space trim_left trim_right is_space to_lower
let_through = refl
