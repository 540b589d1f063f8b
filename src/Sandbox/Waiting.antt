-- ===== src/Sandbox/Waiting.antt =====
-- waitReady of sandbox/sandbox.go: the attempts that its ninety seconds leave time for.
use trilha_runner.Prelude.{
  if_ind, ap, ◌∙◌, codes, ℕ, zero, suc, ◌+◌, ◌*◌, ◌≤◌, ltb, not, is_some, List, Text, ◌≡◌, refl,
  arith, if◌then◌else◌, trim_space, none, some, Option, ◌++◌, [],
}
use trilha_runner.Sandbox.{World, State, ran, wait_ready}
use trilha_runner.Sandbox.Prepare.{ready_attempts}

wait_ready_more :
    (w : World) (left more elapsed : ℕ) (last : Text) (argv : List Text) (s : State)
    → (90_000 ≤ elapsed + 500 * left)
    → wait_ready w (left + more) elapsed last argv s ≡ wait_ready w left elapsed last argv s
unfolding wait_ready
wait_ready_more w zero zero elapsed last argv s h = refl
wait_ready_more w zero (suc more) elapsed last argv s h =
    let e : zero + suc more ≡ suc more = omega arith in
    ap (λ k. wait_ready w k elapsed last argv s) e
    ∙ if_ind (λ (x : State × Option Text). x ≡ wait_ready w zero elapsed last argv s)
        (not (ltb elapsed 90_000)) (λ _. refl) (λ early. absurd (ground (arith, early, h)))
wait_ready_more w (suc left) more elapsed last argv s h =
    let r = w.docker s.done argv in
    let t = ran argv s in
    let late = wait_ready_more w left more (elapsed + r.took + 500) (trim_space r.output) argv t in
    let e : suc left + more ≡ suc (left + more) = omega arith in
    ap (λ k. wait_ready w k elapsed last argv s) e
    ∙ ap
        (λ (rest : State × Option Text).
          if not (ltb elapsed 90_000)
          then (s, some (codes "readiness timed out: " ++ last))
          else if not (is_some r.failure)
          then (t, none)
          else if is_some (w.ended t.done)
          then (t, w.ended t.done)
          else rest)
        (late (omega (arith, h)))

-- The attempts of a wait for a service are enough: with any more of them it ends in the same way.
pub wait_ready_lem :
    (w : World) (more : ℕ) (argv : List Text) (s : State)
    → wait_ready w (ready_attempts + more) 0 [] argv s ≡ wait_ready w ready_attempts 0 [] argv s
wait_ready_lem w more argv s = wait_ready_more w ready_attempts more 0 [] argv s (omega arith)
