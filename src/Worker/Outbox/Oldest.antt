-- ===== src/Worker/Outbox/Oldest.antt =====
-- The results that pendingOutbox of cmd/trilha-runner/outbox.go finds, and their order.
use trilha_runner.Prelude.{
  ℕ, ◌≤◌, ltb, Bool, true, false, ◌&&◌, ◌||◌, not, List, [], ◌∷◌, ◌++◌, some, Text, text_eq,
  eq_of_text_eq, is_empty, All, if_ind, ◌≡◌, refl, sym, ap, ◌∙◌, arith, if◌then◌else◌, Bool-cases,
  inl, inr,
}
use trilha_runner.Agents.Findings.{contains_text}
use trilha_runner.Agents.Entries.{text_eq_comm}
use trilha_runner.Worker.Outbox.Finding.{
  Disk, add_matches, find_all, by_times, is_before, insert_path, sort_paths, pending_outbox,
}

contains_text-append :
    (xs : List Text) (y word : Text)
    → contains_text (xs ++ (y ∷ [])) word ≡ contains_text xs word || text_eq y word
unfolding contains_text
contains_text-append [] y word = ground arith
contains_text-append (x ∷ xs) y word = ground (arith, contains_text-append xs y word)

-- No path twice.
abbrev pub Unique : List Text → Type 0
Unique [] = Unit
Unique (x ∷ xs) = (contains_text xs x ≡ false) × Unique xs

Unique-append :
    (xs : List Text) (y : Text) → contains_text xs y ≡ false → Unique xs → Unique (xs ++ (y ∷ []))
unfolding contains_text
Unique-append [] y new h = (refl, tt)
Unique-append (x ∷ xs) y new (hx, hs) = (
  ground (arith, contains_text-append xs y x, hx, new, text_eq_comm x y),
  Unique-append xs y (ground (arith, new)) hs,
)

contains_text-same :
    (xs : List Text) (x y : Text) → text_eq x y ≡ true → contains_text xs x ≡ contains_text xs y
contains_text-same xs x y e = ap (λ w. contains_text xs w) (eq_of_text_eq x y e)

with_path-holds :
    (found : List Text) (path word : Text)
    → contains_text (if contains_text found path then found else found ++ (path ∷ [])) word
      ≡ contains_text found word || text_eq path word
with_path-holds found path word =
    if_ind (λ (l : List Text). contains_text l word ≡ contains_text found word || text_eq path word)
      (contains_text found path)
      (λ seen. elim (Bool-cases (text_eq path word)) [
        | inl same ↦ ground (arith, contains_text-same found path word same, seen, same)
        | inr other ↦ ground (arith, other)
      ])
      (λ _. contains_text-append found path word)

add_matches-holds :
    (more found : List Text) (word : Text)
    → contains_text (add_matches more found) word
      ≡ contains_text found word || contains_text more word
unfolding add_matches contains_text
add_matches-holds [] found word = ground arith
add_matches-holds (path ∷ more) found word =
    add_matches-holds more (if contains_text found path then found else found ++ (path ∷ [])) word
    ∙ ground (arith, with_path-holds found path word)

add_matches-Unique : (more found : List Text) → Unique found → Unique (add_matches more found)
unfolding add_matches
add_matches-Unique [] found h = h
add_matches-Unique (path ∷ more) found h =
    add_matches-Unique more (if contains_text found path then found else found ++ (path ∷ []))
      (if_ind Unique (contains_text found path) (λ _. h) (λ new. Unique-append found path new h))

module _ (d : Disk) where
  -- A result of a checkout that is named.
  abbrev pub waits_in : List Text → Text → Bool
  waits_in [] word = false
  waits_in (root ∷ roots) word =
      (not (is_empty root) && contains_text (d.results_under root) word) || waits_in roots word

  find_all-holds :
      (roots found : List Text) (word : Text)
      → contains_text (find_all d roots found) word
        ≡ contains_text found word || waits_in roots word
  unfolding find_all
  find_all-holds [] found word = ground arith
  find_all-holds (root ∷ roots) found word =
      find_all-holds roots
        (if is_empty root then found else add_matches (d.results_under root) found) word
      ∙ if_ind
          (λ (l : List Text).
            contains_text l word || waits_in roots word
            ≡ contains_text found word || waits_in (root ∷ roots) word)
          (is_empty root) (λ e. ground (arith, e))
          (λ e. ground (arith, e, add_matches-holds (d.results_under root) found word))

  find_all-Unique : (roots found : List Text) → Unique found → Unique (find_all d roots found)
  unfolding find_all
  find_all-Unique [] found h = h
  find_all-Unique (root ∷ roots) found h =
      find_all-Unique roots
        (if is_empty root then found else add_matches (d.results_under root) found)
        (if_ind Unique (is_empty root) (λ _. h)
          (λ _. add_matches-Unique (d.results_under root) found h))

  insert_path-holds :
      (x : Text) (xs : List Text) (word : Text)
      → contains_text (insert_path d x xs) word ≡ text_eq x word || contains_text xs word
  unfolding insert_path contains_text
  insert_path-holds x [] word = refl
  insert_path-holds x (y ∷ ys) word =
      if_ind
        (λ (l : List Text).
          contains_text l word ≡ text_eq x word || (text_eq y word || contains_text ys word))
        (is_before d y x) (λ _. ground (arith, insert_path-holds x ys word)) (λ _. refl)

  insert_path-Unique :
      (x : Text) (xs : List Text)
      → contains_text xs x ≡ false
      → Unique xs
      → Unique (insert_path d x xs)
  unfolding insert_path contains_text
  insert_path-Unique x [] new h = (refl, tt)
  insert_path-Unique x (y ∷ ys) new (hy, hs) =
      if_ind Unique (is_before d y x)
        (λ _. (
          ground (arith, insert_path-holds x ys y, text_eq_comm x y, hy, new),
          insert_path-Unique x ys (ground (arith, new)) hs,
        ))
        (λ _. (new, (hy, hs)))

  sort_paths-holds :
      (xs : List Text) (word : Text) → contains_text (sort_paths d xs) word ≡ contains_text xs word
  unfolding sort_paths contains_text
  sort_paths-holds [] word = refl
  sort_paths-holds (x ∷ xs) word =
      insert_path-holds x (sort_paths d xs) word
      ∙ ap (λ b. text_eq x word || b) (sort_paths-holds xs word)

  sort_paths-Unique : (xs : List Text) → Unique xs → Unique (sort_paths d xs)
  unfolding sort_paths
  sort_paths-Unique [] h = tt
  sort_paths-Unique (x ∷ xs) (hx, hs) =
      insert_path-Unique x (sort_paths d xs) (sort_paths-holds xs x ∙ hx) (sort_paths-Unique xs hs)

  module _ (time : Text → ℕ) (dated : (path : Text) → d.modified path ≡ some (time path)) where
    -- No path before an older one.
    abbrev pub IsOldestFirst : List Text → Type 0
    IsOldestFirst [] = Unit
    IsOldestFirst (x ∷ xs) = All (λ y. time x ≤ time y) xs × IsOldestFirst xs

    is_before-ltb : (a b : Text) → is_before d a b ≡ ltb (time a) (time b)
    is_before-ltb a b =
        ap (λ s. by_times d s (d.modified b) a b) (dated a)
        ∙ ap (λ t. by_times d (some (time a)) t a b) (dated b)

    All-insert_path :
        (P : Text → Type 0) (x : Text) (xs : List Text)
        → P x
        → All P xs
        → All P (insert_path d x xs)
    unfolding insert_path
    All-insert_path P x [] px h = (px, tt)
    All-insert_path P x (y ∷ ys) px h =
        if_ind (All P) (is_before d y x) (λ _. (h.0, All-insert_path P x ys px h.1)) (λ _. (px, h))

    All-older :
        (x y : Text) (ys : List Text)
        → time x ≤ time y
        → All (λ z. time y ≤ time z) ys
        → All (λ z. time x ≤ time z) ys
    All-older x y [] e h = tt
    All-older x y (z ∷ zs) e h = (omega (arith, e, h.0), All-older x y zs e h.1)

    insert_path-IsOldestFirst :
        (x : Text) (xs : List Text) → IsOldestFirst xs → IsOldestFirst (insert_path d x xs)
    unfolding insert_path
    insert_path-IsOldestFirst x [] h = (tt, tt)
    insert_path-IsOldestFirst x (y ∷ ys) h =
        if_ind IsOldestFirst (is_before d y x)
          (λ before.
            let older : ltb (time y) (time x) ≡ true = sym (is_before-ltb y x) ∙ before in
            (
              All-insert_path (λ z. time y ≤ time z) x ys (ground (arith, older)) h.0,
              insert_path-IsOldestFirst x ys h.1,
            ))
          (λ after.
            let later : ltb (time y) (time x) ≡ false = sym (is_before-ltb y x) ∙ after in
            let e : time x ≤ time y = ground (arith, later) in ((e, All-older x y ys e h.0), h))

    sort_paths-IsOldestFirst : (xs : List Text) → IsOldestFirst (sort_paths d xs)
    unfolding sort_paths
    sort_paths-IsOldestFirst [] = tt
    sort_paths-IsOldestFirst (x ∷ xs) =
        insert_path-IsOldestFirst x (sort_paths d xs) (sort_paths-IsOldestFirst xs)

-- When every file has a time, the results that wait are exactly those under the checkouts that are
-- named, each of them once, and oldest first.
pub pending_outbox-Waits :
    (d : Disk) (time : Text → ℕ) (dated : (path : Text) → d.modified path ≡ some (time path))
    (roots : List Text)
    → ((path : Text) → contains_text (pending_outbox d roots) path ≡ waits_in d roots path)
      × Unique (pending_outbox d roots)
      × IsOldestFirst d time dated (pending_outbox d roots)
unfolding pending_outbox
pending_outbox-Waits d time dated roots = (
  λ path. sort_paths-holds d (find_all d roots []) path ∙ find_all-holds d roots [] path,
  sort_paths-Unique d (find_all d roots []) (find_all-Unique d roots [] tt),
  sort_paths-IsOldestFirst d time dated (find_all d roots []),
)
