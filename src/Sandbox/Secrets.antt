-- ===== src/Sandbox/Secrets.antt =====
-- What the commands of a sandbox of sandbox/sandbox.go show of the run's environment.
use trilha_runner.Prelude.{
  ℕ, ◌+◌, false, ◌||◌, List, [], ◌∷◌, ◌⊎◌, inl, inr, Option, none, some, is_some, Text, codes,
  contains_byte, length, after, after_ext, if◌then◌else◌, ◌≡◌, refl, ap, arith, All,
}
use trilha_runner.Sandbox.{Docker, File, World, State, initial, order, ensure_image}
use trilha_runner.Sandbox.Prepare.{
  create_network, write_lines, write_environment_file, start_services, keep_file, start_agent,
  set_up, given, entered, prepare,
}

-- An entry that can stand on one line of the file.
abbrev pub IsLine : Text → Type 0
IsLine line = contains_byte line 10 || contains_byte line 0 ≡ false

write_lines-same :
    (print : ℕ → Option Text) (n : ℕ) (xs ys : List Text)
    → (length xs ≡ length ys)
    → All IsLine xs
    → All IsLine ys
    → write_lines print n xs ≡ write_lines print n ys
unfolding write_lines
write_lines-same print n [] [] e hx hy = refl
write_lines-same print n [] (y ∷ ys) e hx hy = absurd (omega (arith, e))
write_lines-same print n (x ∷ xs) [] e hx hy = absurd (omega (arith, e))
write_lines-same print n (x ∷ xs) (y ∷ ys) e (hx, rest_x) (hy, rest_y) =
    rw (hx, hy)
      (ap (λ o. if is_some (print n) then print n else o)
        (write_lines-same print (n + 1) xs ys (omega (arith, e)) rest_x rest_y))

write_file-same :
    (f : File) (xs ys : List Text)
    → (length xs ≡ length ys)
    → All IsLine xs
    → All IsLine ys
    → write_environment_file f xs ≡ write_environment_file f ys
unfolding write_environment_file contains_byte
write_file-same f xs ys e hx hy =
    let home = codes "HOME=/tmp" in
    let tree = codes "TRILHA_WORKTREE=/workspace" in
    ap
      (λ (o : Option Text). elim f.created [
        | inl failure ↦ (none, some failure)
        | inr path ↦ (some path, if is_some f.chmod then f.chmod else o)
      ])
      (write_lines-same f.print 0 (home ∷ tree ∷ xs) (home ∷ tree ∷ ys) (omega (arith, e))
        (refl, (refl, hx)) (refl, (refl, hy)))

keep_file-same :
    (w : World) (xs ys : List Text) (s : State)
    → (length xs ≡ length ys)
    → All IsLine xs
    → All IsLine ys
    → keep_file w xs s ≡ keep_file w ys s
unfolding keep_file
keep_file-same w xs ys s e hx hy =
    ap (λ (o : Option Text × Option Text). (record s { file = o.0 }, o.1))
      (write_file-same w.file xs ys e hx hy)

set_up-same :
    (w : World) (d : Docker) (dir : Text) (xs ys : List Text) (s : State)
    → (length xs ≡ length ys)
    → All IsLine xs
    → All IsLine ys
    → set_up w d dir xs s ≡ set_up w d dir ys s
unfolding set_up
set_up-same w d dir xs ys s e hx hy =
    after_ext [] (order w (codes "sandbox: create network: ") (create_network w) s) (λ t.
      after_ext [] (ensure_image w d.image dir t) (λ u.
        after_ext [] (start_services w dir d.services u)
          (λ v. ap (λ x. after [] x (start_agent w d dir)) (keep_file-same w xs ys v e hx hy))))

entered-same :
    (w : World) (d : Docker) (xs ys : List Text) (path : Option Text) (absolute : Text ⊎ Text)
    → (length xs ≡ length ys)
    → All IsLine xs
    → All IsLine ys
    → entered w d xs path absolute ≡ entered w d ys path absolute
unfolding entered
entered-same w d xs ys (some e) absolute h hx hy = refl
entered-same w d xs ys none (inl e) h hx hy = refl
entered-same w d xs ys none (inr dir) h hx hy =
    ap (λ x. given w d dir x) (set_up-same w d dir xs ys initial h hx hy)

-- Whatever the values of the run's environment, in as many entries of one line each, docker is given
-- the same commands, and the preparation has the same end: no value of it stands in a command.
pub prepare-same :
    (w : World) (d : Docker) (dir : Text) (xs ys : List Text)
    → (length xs ≡ length ys)
    → All IsLine xs
    → All IsLine ys
    → prepare w d dir xs ≡ prepare w d dir ys
unfolding prepare
prepare-same w d dir xs ys e hx hy = entered-same w d xs ys w.look_path (w.absolute dir) e hx hy
