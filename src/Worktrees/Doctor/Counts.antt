-- ===== src/Worktrees/Doctor/Counts.antt =====
-- The counts of a report of worktree/doctor.go, and its entries.
use trilha_runner.Prelude.{
  ℕ, suc, ◌+◌, ◌≡◌, ◌⊎◌, ◌↔◌, refl, ◌∙◌, ap, Bool, true, false, ◌||◌, List, [], ◌∷◌, ◌++◌, Text,
  text_lt, Any, length, length-append, if_ind, arith,
}
use trilha_runner.Worktrees.{Host, Command}
use trilha_runner.Worktrees.Doctor.{
  Class, live, finished_kept, orphaned, metadata_only, Bucket, fresh, recent, old, Action, kept,
  removed, skipped, failed, Entry, Options, Scan, treat,
}
use trilha_runner.Worktrees.Doctor.Totals.{
  Report, treat_all, doctor, note_entry, empty_report, count_class, count_bucket, count_action,
  insert_entry, sort_by_key, incomplete,
}
use mathlib.Core.List.{Perm}
use trilha_runner.Worktrees.Doctor.Tallies.{Tallied, note_entry-Tallied, sort_by_key-Tallied}
use trilha_runner.Worktrees.Doctor.Listed.{keys_of, doctor-perm}

abbrev pub classes : Report → ℕ
classes r = r.n_live + r.n_finished_kept + r.n_orphaned + r.n_metadata_only

abbrev pub buckets : Report → ℕ
buckets r = r.n_fresh + r.n_recent + r.n_old

-- An entry that a flag asked to prune and that is still there.
abbrev pub is_left : Action → Bool
is_left skipped = true
is_left failed = true
is_left _ = false

abbrev pub IsLeft : Entry → Type 0
IsLeft e = is_left e.action ≡ true

-- The counts of a report over its own entries.
abbrev pub Counted : Report → Type 0
Counted r =
    (classes r ≡ length r.entries)
    × (buckets r ≡ length r.entries)
    × ((incomplete r ≡ true) ↔ Any IsLeft r.entries)

classes-count_class : (r : Report) (c : Class) → classes (count_class r c) ≡ classes r + 1
classes-count_class r live = omega arith
classes-count_class r finished_kept = omega arith
classes-count_class r orphaned = omega arith
classes-count_class r metadata_only = omega arith

kept_by_bucket :
    (r : Report) (b : Bucket)
    → (buckets (count_bucket r b) ≡ buckets r + 1) × (classes (count_bucket r b) ≡ classes r)
kept_by_bucket r fresh = (omega arith, refl)
kept_by_bucket r recent = (omega arith, refl)
kept_by_bucket r old = (omega arith, refl)

kept_by_class :
    (r : Report) (c : Class)
    → (buckets (count_class r c) ≡ buckets r) × (incomplete (count_class r c) ≡ incomplete r)
unfolding incomplete
kept_by_class r live = (refl, refl)
kept_by_class r finished_kept = (refl, refl)
kept_by_class r orphaned = (refl, refl)
kept_by_class r metadata_only = (refl, refl)

incomplete-count_bucket : (r : Report) (b : Bucket) → incomplete (count_bucket r b) ≡ incomplete r
unfolding incomplete
incomplete-count_bucket r fresh = refl
incomplete-count_bucket r recent = refl
incomplete-count_bucket r old = refl

kept_by_action :
    (r : Report) (a : Action)
    → (classes (count_action r a) ≡ classes r)
      × (buckets (count_action r a) ≡ buckets r)
      × (incomplete (count_action r a) ≡ incomplete r || is_left a)
unfolding incomplete
kept_by_action r kept = (refl, refl, ground arith)
kept_by_action r removed = (refl, refl, ground arith)
kept_by_action r skipped = (refl, refl, ground arith)
kept_by_action r failed = (refl, refl, ground arith)

Any-last : (xs : List Entry) (e : Entry) → Any IsLeft (xs ++ (e ∷ [])) ↔ (Any IsLeft xs ⊎ IsLeft e)
Any-last [] e = (λ h. ground arith, λ h. ground arith)
Any-last (x ∷ xs) e =
    let k = Any-last xs e in (λ h. ground (arith, h, k), λ h. ground (arith, h, k))

incomplete-note_entry :
    (r : Report) (e : Entry) → incomplete (note_entry r e) ≡ incomplete r || is_left e.action
unfolding incomplete
incomplete-note_entry r e =
    let r1 = count_class r e.class in
    let a = kept_by_action (count_bucket r1 e.bucket) e.action in
    let c = kept_by_class r e.class in
    a.2 ∙ ap (λ b. b || is_left e.action) (incomplete-count_bucket r1 e.bucket ∙ c.1)

note_entry-IsLeft :
    (r : Report) (e : Entry)
    → ((incomplete r ≡ true) ↔ Any IsLeft r.entries)
    → (incomplete (note_entry r e) ≡ true) ↔ Any IsLeft (note_entry r e).entries
note_entry-IsLeft r e h =
    let i = incomplete-note_entry r e in
    let k = Any-last r.entries e in
    (λ x. ground (arith, h, i, k, x), λ x. ground (arith, h, i, k, x))

note_entry-Counted : (r : Report) (e : Entry) → Counted r → Counted (note_entry r e)
note_entry-Counted r e h =
    let r1 = count_class r e.class in
    let r2 = count_bucket r1 e.bucket in
    let a = kept_by_action r2 e.action in
    let b = kept_by_bucket r1 e.bucket in
    let c = kept_by_class r e.class in
    let n = length-append r.entries (e ∷ []) in
    (
      omega (arith, classes-count_class r e.class, a, b, n, h.0),
      omega (arith, a, b, c, n, h.1),
      note_entry-IsLeft r e h.2,
    )

Any-insert :
    (e : Entry) (xs : List Entry) → Any IsLeft (insert_entry e xs) ↔ (IsLeft e ⊎ Any IsLeft xs)
Any-insert e [] = (λ h. h, λ h. h)
Any-insert e (x ∷ xs) =
    let k = Any-insert e xs in
    if_ind (λ (l : List Entry). Any IsLeft l ↔ (IsLeft e ⊎ Any IsLeft (x ∷ xs)))
      (text_lt x.key e.key) (λ _. (λ h. ground (arith, h, k), λ h. ground (arith, h, k)))
      (λ _. (λ h. h, λ h. h))

length-insert : (e : Entry) (xs : List Entry) → length (insert_entry e xs) ≡ suc (length xs)
length-insert e [] = refl
length-insert e (x ∷ xs) =
    if_ind (λ (l : List Entry). length l ≡ suc (suc (length xs))) (text_lt x.key e.key)
      (λ _. omega (arith, length-insert e xs)) (λ _. refl)

sort_by_key_lem :
    (xs : List Entry)
    → (length (sort_by_key xs) ≡ length xs) × (Any IsLeft (sort_by_key xs) ↔ Any IsLeft xs)
sort_by_key_lem [] = (refl, (λ h. h, λ h. h))
sort_by_key_lem (x ∷ xs) =
    let k = sort_by_key_lem xs in
    let i = Any-insert x (sort_by_key xs) in
    (
      omega (arith, length-insert x (sort_by_key xs), k.0),
      (λ h. ground (arith, h, k, i), λ h. ground (arith, h, k, i)),
    )

empty_Tallied : Tallied empty_report []
empty_Tallied = (refl, refl, refl, refl, refl, refl, refl, refl, refl, refl)

empty_Counted : Counted empty_report
unfolding incomplete
empty_Counted = (refl, refl, (λ h. ground arith, λ h. absurd h))

IsLeft-counted :
    (r : Report)
    → ((incomplete r ≡ true) ↔ Any IsLeft r.entries)
    → (Any IsLeft (sort_by_key r.entries) ↔ Any IsLeft r.entries)
    → (incomplete (record r { entries = sort_by_key r.entries }) ≡ true)
      ↔ Any IsLeft (sort_by_key r.entries)
unfolding incomplete
IsLeft-counted r c s = (λ x. s.1 (c.0 x), λ x. c.1 (s.0 x))

module _ (h : Host) (m : Scan) (o : Options) where
  treat_all-Tallied :
      (keys : List Text) (r : Report) (commands : List Command)
      → Tallied r r.entries
      → Tallied
          (treat_all h m o keys (r, commands)).0
          (treat_all h m o keys (r, commands)).0.entries
  unfolding treat_all
  treat_all-Tallied [] r commands c = c
  treat_all-Tallied (key ∷ keys) r commands c =
      let (e, more) = treat h m o key in
      treat_all-Tallied keys (note_entry r e) (commands ++ more) (note_entry-Tallied r e c)

  treat_all-Counted :
      (keys : List Text) (r : Report) (commands : List Command)
      → Counted r
      → Counted (treat_all h m o keys (r, commands)).0
        × (length (treat_all h m o keys (r, commands)).0.entries ≡ length keys + length r.entries)
  unfolding treat_all
  treat_all-Counted [] r commands c = (c, omega arith)
  treat_all-Counted (key ∷ keys) r commands c =
      let (e, more) = treat h m o key in
      let k =
        treat_all-Counted keys (note_entry r e) (commands ++ more) (note_entry-Counted r e c) in
      (k.0, omega (arith, k.1, length-append r.entries (e ∷ [])))

  -- The keys of a report's entries are those of the run directories, each as often. Every count by
  -- class, by age and by action is the number of its entries; those by class and those by age add up
  -- to the number of all entries; and the report is incomplete exactly when some entry was skipped or
  -- failed.
  pub doctor-Counted :
      (keys : List Text)
      → Perm (keys_of (doctor h m o keys).0.entries) keys
        × Tallied (doctor h m o keys).0 (doctor h m o keys).0.entries
        × Counted (doctor h m o keys).0
  unfolding doctor
  doctor-Counted keys =
      let (r, commands) = treat_all h m o keys (empty_report, []) in
      let (counted, size) = treat_all-Counted keys empty_report [] empty_Counted in
      let (same_size, same_left) = sort_by_key_lem r.entries in
      (
        doctor-perm h m o keys,
        sort_by_key-Tallied r r.entries (treat_all-Tallied keys empty_report [] empty_Tallied),
        (
          omega (arith, counted, same_size),
          omega (arith, counted, same_size),
          IsLeft-counted r counted.2 same_left,
        ),
      )
