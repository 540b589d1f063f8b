-- ===== src/Worktrees/Inside.antt =====
-- The processes inside a directory, in worktree/teardown.go: some, all, and in order.
use trilha_runner.Prelude.{
  Bool-cases, text_eq, eq_of_text_eq, text_eq_refl, has_prefix, has_prefix_split, has_prefix-append,
  ◌++◌, codes, sym, subst, ℕ, ◌≤◌, ltb, true, List, [], ◌∷◌, ◌⊎◌, inl, inr, Text, Any, All, if_ind,
  ◌≡◌, refl, arith,
}
use trilha_runner.Worktrees.Teardown.{Process, is_inside, insert_pid, pids_in}

-- A directory that is the given one or below it.
abbrev pub IsInside : Text → Text → Type 0
IsInside root cwd = (cwd ≡ root) ⊎ ((rest : Text) × (cwd ≡ root ++ codes "/" ++ rest))

is_inside-IsInside : (root cwd : Text) → (is_inside root cwd ≡ true) → IsInside root cwd
unfolding is_inside
is_inside-IsInside root cwd h = elim (Bool-cases (text_eq cwd root)) [
  | inl same ↦ inl (eq_of_text_eq cwd root same)
  | inr other ↦
      let (rest, e) = has_prefix_split cwd (root ++ codes "/") (ground (arith, h, other)) in
      inr (rest, e)
]

IsInside-is_inside : (root cwd : Text) → IsInside root cwd → is_inside root cwd ≡ true
unfolding is_inside
IsInside-is_inside root cwd (inl e) = let same = text_eq_refl root in rw e (ground (arith, same))
IsInside-is_inside root cwd (inr (rest, e)) =
    let below : has_prefix cwd (root ++ codes "/") ≡ true =
      subst (λ s. has_prefix s (root ++ codes "/") ≡ true) (sym e)
        (has_prefix-append (root ++ codes "/") rest) in
    ground (arith, below)

-- The processes of a table inside a directory.
abbrev pub Holds : Text → List Process → ℕ → Type 0
Holds root table pid = Any (λ p. (p.pid ≡ pid) × IsInside root p.cwd) table

insert_pid-All :
    (P : ℕ → Type 0) (pid : ℕ) (pids : List ℕ) → P pid → All P pids → All P (insert_pid pid pids)
unfolding insert_pid
insert_pid-All P pid [] hp h = (hp, tt)
insert_pid-All P pid (p ∷ pids) hp (h, rest) =
    if_ind (All P) (ltb p pid) (λ _. (h, insert_pid-All P pid pids hp rest)) (λ _. (hp, (h, rest)))

All-map : {P Q : ℕ → Type 0} (pids : List ℕ) → ((pid : ℕ) → P pid → Q pid) → All P pids → All Q pids
All-map [] f h = tt
All-map (pid ∷ pids) f (h, rest) = (f pid h, All-map pids f rest)

pub pids_in-Holds :
    (root : Text) (table : List Process) → All (Holds root table) (pids_in root table)
unfolding pids_in
pids_in-Holds root [] = tt
pids_in-Holds root (p ∷ table) =
    let rest = All-map (pids_in root table) (λ pid h. inr h) (pids_in-Holds root table) in
    if_ind (All (Holds root (p ∷ table))) (is_inside root p.cwd)
      (λ inside.
        insert_pid-All (Holds root (p ∷ table)) p.pid (pids_in root table)
          (inl (refl, is_inside-IsInside root p.cwd inside)) rest)
      (λ _. rest)

-- The list has every process of the table inside the directory.
abbrev pub HasAll : Text → List Process → List ℕ → Type 0
HasAll root table pids = All (λ p. (¬ IsInside root p.cwd) ⊎ Any (λ pid. pid ≡ p.pid) pids) table

abbrev pub IsAscending : List ℕ → Type 0
IsAscending [] = Unit
IsAscending (pid ∷ pids) = All (λ q. pid ≤ q) pids × IsAscending pids

insert_pid-has : (pid : ℕ) (pids : List ℕ) → Any (λ q. q ≡ pid) (insert_pid pid pids)
unfolding insert_pid
insert_pid-has pid [] = inl refl
insert_pid-has pid (p ∷ pids) =
    if_ind (Any (λ q. q ≡ pid)) (ltb p pid) (λ _. inr (insert_pid-has pid pids)) (λ _. inl refl)

insert_pid-Any :
    (P : ℕ → Type 0) (pid : ℕ) (pids : List ℕ) → Any P pids → Any P (insert_pid pid pids)
unfolding insert_pid
insert_pid-Any P pid [] h = absurd h
insert_pid-Any P pid (p ∷ pids) (inl h) = if_ind (Any P) (ltb p pid) (λ _. inl h) (λ _. inr (inl h))
insert_pid-Any P pid (p ∷ pids) (inr h) =
    if_ind (Any P) (ltb p pid) (λ _. inr (insert_pid-Any P pid pids h)) (λ _. inr (inr h))

HasAll-insert_pid :
    (root : Text) (pid : ℕ) (table : List Process) (pids : List ℕ)
    → HasAll root table pids
    → HasAll root table (insert_pid pid pids)
HasAll-insert_pid root pid [] pids h = tt
HasAll-insert_pid root pid (p ∷ table) pids (inl outside, h) =
    (inl outside, HasAll-insert_pid root pid table pids h)
HasAll-insert_pid root pid (p ∷ table) pids (inr has, h) =
    (inr (insert_pid-Any (λ q. q ≡ p.pid) pid pids has), HasAll-insert_pid root pid table pids h)

pub pids_in-HasAll : (root : Text) (table : List Process) → HasAll root table (pids_in root table)
unfolding pids_in
pids_in-HasAll root [] = tt
pids_in-HasAll root (p ∷ table) =
    if_ind (HasAll root (p ∷ table)) (is_inside root p.cwd)
      (λ _. (
        inr (insert_pid-has p.pid (pids_in root table)),
        HasAll-insert_pid root p.pid table (pids_in root table) (pids_in-HasAll root table),
      ))
      (λ outside. (
        inl (λ h. ground (arith, outside, IsInside-is_inside root p.cwd h)),
        pids_in-HasAll root table,
      ))

insert_pid-IsAscending :
    (pid : ℕ) (pids : List ℕ) → IsAscending pids → IsAscending (insert_pid pid pids)
unfolding insert_pid
insert_pid-IsAscending pid [] h = (tt, tt)
insert_pid-IsAscending pid (p ∷ pids) (least, h) =
    if_ind IsAscending (ltb p pid)
      (λ less. (
        insert_pid-All (λ q. p ≤ q) pid pids (ground (arith, less)) least,
        insert_pid-IsAscending pid pids h,
      ))
      (λ more.
        let e : pid ≤ p = ground (arith, more) in
        ((e, All-map pids (λ q k. omega (arith, e, k)) least), (least, h)))

pub pids_in-IsAscending : (root : Text) (table : List Process) → IsAscending (pids_in root table)
unfolding pids_in
pids_in-IsAscending root [] = tt
pids_in-IsAscending root (p ∷ table) =
    if_ind IsAscending (is_inside root p.cwd)
      (λ _. insert_pid-IsAscending p.pid (pids_in root table) (pids_in-IsAscending root table))
      (λ _. pids_in-IsAscending root table)
