-- ===== src/Queue/Remote.antt =====
-- queue/remote.go: the requests of a runner to the control plane, and what it takes from the answers.
pub mod Uploading
pub mod Claiming
pub mod Reporting
use trilha_runner.Prelude.{
  ℕ, ◌/◌, ◌==◌, Bool, false, ◌&&◌, ◌||◌, not, List, [], ◌∷◌, ◌++◌, ◌⊎◌, inl, inr, Option, none,
  some, Text, codes, text_eq, is_empty, cut, trim_space, take, ℤ, pos, negsuc, if◌then◌else◌,
}

-- A request: its method, its path, the fields of its body, and its headers.
pub record Request : Type 0 where
  pub method : Text
  pub path : Text
  pub body : List (Text × Text)
  pub headers : List (Text × Text)

-- No answer, or a status with its line and its body.
pub data Answer : Type 0 where
  lost : Text → Answer
  answered : ℕ → Text → Text → Answer

pub record Capabilities : Type 0 where
  pub labels : List Text
  pub capacity : ℤ
  pub running : ℤ

pub record Remote : Type 0 where
  pub base_url : Text
  pub token : Text
  pub worker : Text
  pub project : Text
  pub capabilities : Capabilities

pub record Item : Type 0 where
  pub id : Text
  pub project : Text
  pub task_id : Text
  pub depends_on : List Text
  pub waiting : Text

pub record Bundle : Type 0 where
  pub version : ℕ
  pub run_id : Text
  pub project : Text
  pub task : Text

pub record Deployment : Type 0 where
  pub id : Text
  pub project : Text
  pub profile : Text

-- The control plane answers by the requests before; JSON is encoded and decoded elsewhere, and so
-- are the escapes of net/url.
pub record World : Type 0 where
  pub answer : List Request → Request → Answer
  pub path_escape : Text → Text
  pub query_escape : Text → Text
  pub encode : Capabilities → Text
  pub decode_item : Text → Text ⊎ Item
  pub decode_status : Text → Text ⊎ Text
  pub decode_bundle : Text → Text ⊎ Bundle
  pub decode_deployment : Text → Text ⊎ Deployment
  pub decode_code : Text → Option Text  -- the code of a refusal

-- normalizedCapabilities
abbrev pub at_least_one : ℤ → ℤ
at_least_one (pos n) = if n == 0 then pos 1 else pos n
at_least_one (negsuc n) = pos 1

abbrev pub at_least_zero : ℤ → ℤ
at_least_zero (pos n) = pos n
at_least_zero (negsuc n) = pos 0

abbrev pub normalized_capabilities : Capabilities → Capabilities
normalized_capabilities c = record c {
  capacity = at_least_one c.capacity;
  running = at_least_zero c.running;
}

abbrev pub is_success : ℕ → Bool
is_success code = code / 100 == 2

abbrev pub shown : Text → Text
shown body = trim_space (take 4096 body)

abbrev pub authorization : Remote → List (Text × Text)
authorization r =
    (codes "Authorization", codes "Bearer " ++ r.token)
    ∷ (codes "Accept", codes "application/json")
    ∷ []

-- The request of do, with a body.
abbrev pub posted : Remote → Text → List (Text × Text) → Request
posted r path body = record {
  method = codes "POST";
  path = r.base_url ++ path;
  body = body;
  headers = authorization r ++ ((codes "Content-Type", codes "application/json") ∷ []);
}

abbrev pub gotten : Remote → Text → Request
gotten r path = record {
  method = codes "GET";
  path = r.base_url ++ path;
  body = [];
  headers = authorization r;
}

-- What a call returns: an error, nothing to do, or a value.
pub data Got {ℓ} (A : Type ℓ) : Type ℓ where
  failed : Text → Got A
  empty : Got A
  value : A → Got A

abbrev pub refused_as : Text → Text → Text → Text
refused_as words line body = words ++ line ++ codes ": " ++ shown body

abbrev pub status_of : Text ⊎ Text → Text ⊎ Text
status_of (inl e) = inl e
status_of (inr status) =
    if is_empty status then inl (codes "queue: dependency status is empty") else inr status

abbrev pub status_answer : World → Answer → Text ⊎ Text
status_answer w (lost e) = inl e
status_answer w (answered code line body) =
    if is_success code
    then status_of (w.decode_status body)
    else inl (refused_as (codes "queue: dependency: ") line body)

abbrev pub identity : Remote → List (Text × Text)
identity r = (codes "worker", r.worker) ∷ (codes "project", r.project) ∷ []
