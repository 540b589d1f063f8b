-- ===== src/Queue/Repositories.antt =====
-- ParseRepository of queue/queue.go: what the --repo flag is read as.
use trilha_runner.Prelude.{
  ◌≡◌, ◌≢◌, refl, true, false, ◌++◌, [], ◌∷◌, some, arith, Text, contains_byte, cut, trim_space,
  is_empty, ℕ,
}
use trilha_runner.Queue.{parse_repository}

cut_of_append :
    (s t : Text) (sep : ℕ) → contains_byte s sep ≡ false → cut (s ++ (sep ∷ t)) sep ≡ (s, t, true)
unfolding cut contains_byte
cut_of_append [] t sep h = ground arith
cut_of_append (c ∷ s) t sep h = ground (arith, cut_of_append s t sep)

full : (s : Text) → s ≢ [] → is_empty s ≡ false
full [] n = absurd (n refl)
full (c ∷ s) n = refl

-- The flag alias=path is read as the trimmed alias and the trimmed path, when neither is empty, the
-- alias has no '=' and, trimmed, no ':'.
pub parse_repository_append :
    (alias path : Text)
    → trim_space alias ≢ []
    → trim_space path ≢ []
    → contains_byte alias b'=' ≡ false
    → contains_byte (trim_space alias) b':' ≡ false
    → parse_repository (alias ++ (b'=' ∷ path)) ≡ some (trim_space alias, trim_space path)
unfolding parse_repository
parse_repository_append alias path na np e c =
    rw (cut_of_append alias path b'=' e, full (trim_space alias) na, full (trim_space path) np, c)
      refl
