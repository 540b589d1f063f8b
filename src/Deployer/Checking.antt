-- ===== src/Deployer/Checking.antt =====
-- The health checks of deployer/deployer.go, one after the other.
use trilha_runner.Prelude.{
  ℕ, ◌<◌, ◌≤◌, ◌≡◌, refl, true, List, [], ◌∷◌, ◌++◌, Option, none, some, Text, if_ind, append_nil,
  append_assoc, sym, ◌∙◌, arith,
}
use trilha_runner.Deployer.{HealthCheck, World, State, Ran, Reply, no_request, no_answer, status}
use trilha_runner.Deployer.Health.{
  check_health, health_error, health_log, added_status, name_of_check, joined, is_healthy, made,
  check_timeout,
}

-- The requests of health checks.
unfoldable pub requests : List HealthCheck → List (Text × ℕ)
unfolding check_timeout
requests [] = []
requests (check ∷ checks) = (check.url, check_timeout check) ∷ requests checks

module _ (w : World) where
  -- Every check, in its turn, is answered with a status from 200 to 399.
  unfoldable pub AllHealthy : ℕ → List Ran → List HealthCheck → List (Text × ℕ) → Type 0
  unfolding requests
  AllHealthy timeout ran [] checked = Unit
  AllHealthy timeout ran (check ∷ checks) checked =
      (duration : Text) × (code : ℕ) × (line : Text) × (w.get timeout ran checked check.url
        ≡ status duration code line)
      × (200 ≤ code)
      × (code < 400)
      × AllHealthy timeout ran checks (checked ++ requests (check ∷ []))

  pub AllHealthy-same :
      (checks : List HealthCheck) {timeout later : ℕ} {ran more : List Ran}
      {checked known : List (Text × ℕ)}
      → (later ≡ timeout)
      → (more ≡ ran)
      → (known ≡ checked)
      → AllHealthy timeout ran checks checked
      → AllHealthy later more checks known
  AllHealthy-same checks e f g h = rw (e, f, g) h

  abbrev pub Checks : State → List HealthCheck → (State × Text) × Option Text → Type 0
  Checks s checks ((t, health), none) =
      (t.ran ≡ s.ran)
      × (t.timeout ≡ s.timeout)
      × (t.checked ≡ s.checked ++ requests checks)
      × AllHealthy s.timeout s.ran checks s.checked
  Checks s checks ((t, health), some e) = (t.ran ≡ s.ran) × (t.timeout ≡ s.timeout)

  abbrev seen : State → HealthCheck → Reply → State
  seen s check reply = record s {
    log = s.log ++ health_log (name_of_check check) reply;
    checked = s.checked ++ made check (check_timeout check) reply;
  }

  abbrev Known : State → HealthCheck → Text → ℕ → Text → Type 0
  Known s check duration code line =
      (w.get s.timeout s.ran s.checked check.url ≡ status duration code line)
      × (is_healthy code ≡ true)

  Checks-healthy :
      (check : HealthCheck) (checks : List HealthCheck) (s : State) (duration : Text) (code : ℕ)
      (line : Text) (x : (State × Text) × Option Text)
      → Known s check duration code line
      → Checks (seen s check (status duration code line)) checks x
      → Checks s (check ∷ checks) x
  unfolding AllHealthy requests
  Checks-healthy check checks s duration code line ((t, health), none) (e, good)
        (ran, left, made_all, all_good) =
      (
        ran,
        left,
        made_all ∙ append_assoc s.checked ((check.url, check_timeout check) ∷ []) (requests checks),
        (duration, code, line, e, ground (arith, good), ground (arith, good), all_good),
      )
  Checks-healthy check checks s duration code line ((t, health), some f) known (ran, left) =
      (ran, left)

  check-Checks :
      (check : HealthCheck) (checks : List HealthCheck) (statuses : List Text) (s : State)
      (reply : Reply)
      → (w.get s.timeout s.ran s.checked check.url ≡ reply)
      → ((known : List Text) (t : State) → Checks t checks (check_health w checks known t))
      → Checks s (check ∷ checks) (
          let next = seen s check reply in
          let known = statuses ++ added_status (name_of_check check) reply in
          elim (health_error (name_of_check check) reply) [
            | none ↦ check_health w checks known next
            | some e ↦ ((next, joined known), some e)
          ])
  check-Checks check checks statuses s (no_request f) e ih = (refl, refl)
  check-Checks check checks statuses s (no_answer duration f) e ih = (refl, refl)
  check-Checks check checks statuses s (status duration code line) e ih =
      let next = seen s check (status duration code line) in
      let known = statuses ++ added_status (name_of_check check) (status duration code line) in
      if_ind
        (λ (o : Option Text). Checks s (check ∷ checks) (elim o [
          | none ↦ check_health w checks known next
          | some f ↦ ((next, joined known), some f)
        ]))
        (is_healthy code)
        (λ good.
          Checks-healthy check checks s duration code line (check_health w checks known next)
            (e, good) (ih known next))
        (λ _. (refl, refl))

  pub check_health-Checks :
      (checks : List HealthCheck) (statuses : List Text) (s : State)
      → Checks s checks (check_health w checks statuses s)
  unfolding check_health requests AllHealthy
  check_health-Checks [] statuses s = (refl, refl, sym (append_nil s.checked), tt)
  check_health-Checks (check ∷ checks) statuses s =
      check-Checks check checks statuses s (w.get s.timeout s.ran s.checked check.url) refl
        (check_health-Checks checks)
