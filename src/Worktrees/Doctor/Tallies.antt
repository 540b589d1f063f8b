-- ===== src/Worktrees/Doctor/Tallies.antt =====
-- The counts of Doctor in worktree/doctor.go over the entries of its report.
use trilha_runner.Prelude.{
  ℕ, ◌+◌, ◌≡◌, refl, sym, ◌∙◌, Bool, true, false, List, [], ◌∷◌, ◌++◌, text_lt, if_ind,
  if◌then◌else◌, arith,
}
use trilha_runner.Worktrees.Doctor.{
  Class, live, finished_kept, orphaned, metadata_only, Bucket, fresh, recent, old, Action, kept,
  removed, skipped, failed, Entry,
}
use trilha_runner.Worktrees.Doctor.Totals.{
  Report, note_entry, count_class, count_bucket, count_action, insert_entry, sort_by_key,
}

abbrev pub one : Bool → ℕ
one b = if b then 1 else 0

-- The number of the entries that pass a test.
abbrev pub tally : (Entry → Bool) → List Entry → ℕ
tally test [] = 0
tally test (e ∷ es) = one (test e) + tally test es

tally-append :
    (test : Entry → Bool) (xs : List Entry) (e : Entry)
    → tally test (xs ++ (e ∷ [])) ≡ tally test xs + one (test e)
tally-append test [] e = omega arith
tally-append test (x ∷ xs) e = omega (arith, tally-append test xs e)

tally-insert :
    (test : Entry → Bool) (e : Entry) (xs : List Entry)
    → tally test (insert_entry e xs) ≡ one (test e) + tally test xs
tally-insert test e [] = refl
tally-insert test e (x ∷ xs) =
    if_ind (λ (l : List Entry). tally test l ≡ one (test e) + (one (test x) + tally test xs))
      (text_lt x.key e.key) (λ _. omega (arith, tally-insert test e xs)) (λ _. refl)

tally-sort : (test : Entry → Bool) (xs : List Entry) → tally test (sort_by_key xs) ≡ tally test xs
tally-sort test [] = refl
tally-sort test (x ∷ xs) = omega (arith, tally-insert test x (sort_by_key xs), tally-sort test xs)

abbrev pub same_class : Class → Class → Bool
same_class live live = true
same_class finished_kept finished_kept = true
same_class orphaned orphaned = true
same_class metadata_only metadata_only = true
same_class _ _ = false

abbrev pub same_bucket : Bucket → Bucket → Bool
same_bucket fresh fresh = true
same_bucket recent recent = true
same_bucket old old = true
same_bucket _ _ = false

abbrev pub same_action : Action → Action → Bool
same_action kept kept = true
same_action removed removed = true
same_action skipped skipped = true
same_action failed failed = true
same_action _ _ = false

abbrev pub of_class : Class → Entry → Bool
of_class c e = same_class c e.class

abbrev pub of_bucket : Bucket → Entry → Bool
of_bucket b e = same_bucket b e.bucket

abbrev pub of_action : Action → Entry → Bool
of_action a e = same_action a e.action

-- The counts of a report are those of a list of entries.
abbrev pub Tallied : Report → List Entry → Type 0
Tallied r es =
    (r.n_live ≡ tally (of_class live) es)
    × (r.n_finished_kept ≡ tally (of_class finished_kept) es)
    × (r.n_orphaned ≡ tally (of_class orphaned) es)
    × (r.n_metadata_only ≡ tally (of_class metadata_only) es)
    × (r.n_fresh ≡ tally (of_bucket fresh) es)
    × (r.n_recent ≡ tally (of_bucket recent) es)
    × (r.n_old ≡ tally (of_bucket old) es)
    × (r.n_removed ≡ tally (of_action removed) es)
    × (r.n_skipped ≡ tally (of_action skipped) es)
    × (r.n_failed ≡ tally (of_action failed) es)

-- What an entry adds to the counts.
abbrev Adds : Report → (Class → ℕ) → (Bucket → ℕ) → (Action → ℕ) → Report → Type 0
Adds r cs bs more r' =
    (r'.n_live ≡ r.n_live + cs live)
    × (r'.n_finished_kept ≡ r.n_finished_kept + cs finished_kept)
    × (r'.n_orphaned ≡ r.n_orphaned + cs orphaned)
    × (r'.n_metadata_only ≡ r.n_metadata_only + cs metadata_only)
    × (r'.n_fresh ≡ r.n_fresh + bs fresh)
    × (r'.n_recent ≡ r.n_recent + bs recent)
    × (r'.n_old ≡ r.n_old + bs old)
    × (r'.n_removed ≡ r.n_removed + more removed)
    × (r'.n_skipped ≡ r.n_skipped + more skipped)
    × (r'.n_failed ≡ r.n_failed + more failed)

abbrev none_of {ℓ} : {A : Type ℓ} → A → ℕ
none_of x = 0

count_class-Adds :
    (r : Report) (c : Class) → Adds r (λ d. one (same_class d c)) none_of none_of (count_class r c)
count_class-Adds r live = ground arith
count_class-Adds r finished_kept = ground arith
count_class-Adds r orphaned = ground arith
count_class-Adds r metadata_only = ground arith

count_bucket-Adds :
    (r : Report) (b : Bucket)
    → Adds r none_of (λ d. one (same_bucket d b)) none_of (count_bucket r b)
count_bucket-Adds r fresh = ground arith
count_bucket-Adds r recent = ground arith
count_bucket-Adds r old = ground arith

count_action-Adds :
    (r : Report) (a : Action)
    → Adds r none_of none_of (λ d. one (same_action d a)) (count_action r a)
count_action-Adds r kept = ground arith
count_action-Adds r removed = ground arith
count_action-Adds r skipped = ground arith
count_action-Adds r failed = ground arith

pub note_entry-Tallied :
    (r : Report) (e : Entry)
    → Tallied r r.entries
    → Tallied (note_entry r e) (note_entry r e).entries
note_entry-Tallied r e h =
    let r1 = count_class r e.class in
    let r2 = count_bucket r1 e.bucket in
    let a = count_class-Adds r e.class in
    let b = count_bucket-Adds r1 e.bucket in
    let c = count_action-Adds r2 e.action in
    (
      omega (arith, a, b, c, h, tally-append (of_class live) r.entries e),
      omega (arith, a, b, c, h, tally-append (of_class finished_kept) r.entries e),
      omega (arith, a, b, c, h, tally-append (of_class orphaned) r.entries e),
      omega (arith, a, b, c, h, tally-append (of_class metadata_only) r.entries e),
      omega (arith, a, b, c, h, tally-append (of_bucket fresh) r.entries e),
      omega (arith, a, b, c, h, tally-append (of_bucket recent) r.entries e),
      omega (arith, a, b, c, h, tally-append (of_bucket old) r.entries e),
      omega (arith, a, b, c, h, tally-append (of_action removed) r.entries e),
      omega (arith, a, b, c, h, tally-append (of_action skipped) r.entries e),
      omega (arith, a, b, c, h, tally-append (of_action failed) r.entries e),
    )

pub sort_by_key-Tallied : (r : Report) (es : List Entry) → Tallied r es → Tallied r (sort_by_key es)
sort_by_key-Tallied r es h = (
  h.0 ∙ sym (tally-sort (of_class live) es),
  h.1 ∙ sym (tally-sort (of_class finished_kept) es),
  h.2 ∙ sym (tally-sort (of_class orphaned) es),
  h.3 ∙ sym (tally-sort (of_class metadata_only) es),
  h.4 ∙ sym (tally-sort (of_bucket fresh) es),
  h.5 ∙ sym (tally-sort (of_bucket recent) es),
  h.6 ∙ sym (tally-sort (of_bucket old) es),
  h.7 ∙ sym (tally-sort (of_action removed) es),
  h.8 ∙ sym (tally-sort (of_action skipped) es),
  h.9 ∙ sym (tally-sort (of_action failed) es),
)
