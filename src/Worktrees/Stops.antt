-- ===== src/Worktrees/Stops.antt =====
-- A teardown of a worktree that three processes work in, one of them for long.
use trilha_runner.Prelude.{
  ◌≡◌, ◌*◌, ◌==◌, ltb, ◌||◌, refl, false, [], ◌∷◌, some, codes, text_eq, has_prefix,
}
use trilha_runner.Worktrees.Teardown.{
  Scene, is_inside, insert_pid, pids_in, some_alive, kills, all_exit, stop, teardown_signals, term,
  kill,
}

-- The processes 4 and 2 exit before the third check, and 7 does not.
abbrev scene : Scene
scene = record {
  table = some (
      record { pid = 4; cwd = codes "/w/a" }
      ∷ record { pid = 9; cwd = codes "/wide" }
      ∷ record { pid = 7; cwd = codes "/w" }
      ∷ record { pid = 2; cwd = codes "/w/b/c" }
      ∷ []);
  alive = λ n pid. ltb n 2 || pid == 7;
  alive_after = λ pid. pid == 7;
  clock = λ n. 60 * n;
  ended = λ n. false;
}

killed : teardown_signals scene (codes "/w") ≡ term 2 ∷ term 4 ∷ term 7 ∷ kill 7 ∷ []
unfolding teardown_signals stop all_exit kills some_alive pids_in insert_pid is_inside text_eq
    has_prefix
killed = refl

exited : teardown_signals scene (codes "/w/a") ≡ term 4 ∷ []
unfolding teardown_signals stop all_exit kills some_alive pids_in insert_pid is_inside text_eq
    has_prefix
exited = refl
