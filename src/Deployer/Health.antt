-- ===== src/Deployer/Health.antt =====
-- checkHealth of deployer/deployer.go.
use trilha_runner.Prelude.{
  ℕ, ltb, leb, ◌==◌, Bool, ◌&&◌, not, List, [], ◌∷◌, ◌++◌, Option, none, some, Text, codes,
  is_empty, length, if◌then◌else◌,
}
use trilha_runner.Deployer.{
  Step, HealthCheck, Profile, Reply, no_request, no_answer, status, World, State, bounded_timeout,
  entry,
}

abbrev pub name_of_check : HealthCheck → Text
name_of_check check = if is_empty check.name then codes "health" else check.name

unfoldable pub check_timeout : HealthCheck → ℕ
unfolding bounded_timeout
check_timeout check = bounded_timeout 300_000_000_000 30_000_000_000 check.timeout_seconds

abbrev pub is_healthy : ℕ → Bool
is_healthy code = leb 200 code && ltb code 400

-- strings.Join with ", ".
unfoldable pub joined : List Text → Text
joined [] = []
joined (t ∷ []) = t
joined (t ∷ u ∷ us) = t ++ codes ", " ++ joined (u ∷ us)

-- What one reply writes to the log, the status it adds, and its error.
abbrev pub health_log : Text → Reply → Text
health_log name (no_request e) = []
health_log name (no_answer duration e) =
    codes "health:" ++ name ++ codes " duration=" ++ duration ++ codes " error=" ++ e ++ codes "\n"
health_log name (status duration code line) =
    codes "health:"
    ++ name
    ++ codes " duration="
    ++ duration
    ++ codes " status="
    ++ line
    ++ codes "\n"

abbrev pub added_status : Text → Reply → List Text
added_status name (no_request e) = []
added_status name (no_answer duration e) = []
added_status name (status duration code line) = entry name line ∷ []

abbrev pub health_error : Text → Reply → Option Text
health_error name (no_request e) = some e
health_error name (no_answer duration e) = some (codes "health " ++ name ++ codes " failed: " ++ e)
health_error name (status duration code line) =
    if is_healthy code then none else some (codes "health check failed: " ++ entry name line)

-- The request that was made, if one was.
abbrev pub made : HealthCheck → ℕ → Reply → List (Text × ℕ)
made check timeout (no_request e) = []
made check timeout _ = (check.url, timeout) ∷ []

-- The checks of a profile.
abbrev pub health_checks : Profile → List HealthCheck
health_checks profile =
    if length profile.health == 0 && not (is_empty profile.health_url)
    then record {
      name = codes "health";
      url = profile.health_url;
      timeout_seconds = profile.timeout_seconds;
    }
      ∷ []
    else profile.health

abbrev pub steps_of : Profile → List Step
steps_of profile =
    if length profile.steps == 0 && ltb 0 (length profile.deploy)
    then record { name = codes "deploy"; argv = profile.deploy; on_fail = codes "abort" } ∷ []
    else profile.steps

module _ (w : World) where
  -- checkHealth, with the statuses so far.
  unfoldable pub check_health : List HealthCheck → List Text → State → (State × Text) × Option Text
  unfolding joined check_timeout
  check_health [] statuses s = ((s, joined statuses), none)
  check_health (check ∷ checks) statuses s =
      let name = name_of_check check in
      let reply = w.get s.timeout s.ran s.checked check.url in
      let next : State = record s {
        log = s.log ++ health_log name reply;
        checked = s.checked ++ made check (check_timeout check) reply;
      } in
      let known = statuses ++ added_status name reply in
      let rest = check_health checks known next in
      elim (health_error name reply) [ none ↦ rest | some e ↦ ((next, joined known), some e) ]
