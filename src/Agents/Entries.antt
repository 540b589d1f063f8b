-- ===== src/Agents/Entries.antt =====
-- The artifacts by their names, and the replies by their comments, in runner/report.go.
use trilha_runner.Prelude.{
  ◌≢◌, ◌↔◌, true, inl, inr, Any, text_eq_refl, Bool-cases, false, ◌||◌, List, [], ◌∷◌, ◌++◌, Text,
  text_eq, eq_of_text_eq, length, All, if_ind, ◌≡◌, refl, sym, ap, ◌∙◌, arith,
}
use trilha_runner.Agents.Findings.{Artifact, contains_text, has_name, replace, put}

pub text_eq_comm : (s t : Text) → text_eq s t ≡ text_eq t s
unfolding text_eq
text_eq_comm [] [] = refl
text_eq_comm [] (d ∷ t) = refl
text_eq_comm (c ∷ s) [] = refl
text_eq_comm (c ∷ s) (d ∷ t) = ground (arith, text_eq_comm s t)

-- No two artifacts of the same name.
abbrev pub Distinct : List Artifact → Type 0
Distinct [] = Unit
Distinct (a ∷ more) = (has_name a.name more ≡ false) × Distinct more

has_name-append :
    (name : Text) (xs : List Artifact) (y : Artifact)
    → has_name name (xs ++ (y ∷ [])) ≡ has_name name xs || text_eq y.name name
unfolding has_name
has_name-append name [] y = ground arith
has_name-append name (x ∷ xs) y = ground (arith, has_name-append name xs y)

pub Distinct-append :
    (xs : List Artifact) (y : Artifact)
    → (has_name y.name xs ≡ false)
    → Distinct xs
    → Distinct (xs ++ (y ∷ []))
unfolding has_name
Distinct-append [] y new hd = (refl, tt)
Distinct-append (x ∷ xs) y new (hx, hd) = (
  ground (arith, has_name-append x.name xs y, hx, new, text_eq_comm x.name y.name),
  Distinct-append xs y (ground (arith, new)) hd,
)

has_name-replace :
    (other : Text) (y : Artifact) (xs : List Artifact)
    → has_name other (replace y.name y xs) ≡ has_name other xs
unfolding replace has_name
has_name-replace other y [] = refl
has_name-replace other y (x ∷ xs) =
    if_ind (λ (l : List Artifact). has_name other l ≡ has_name other (x ∷ xs)) (has_name y.name xs)
      (λ later. ap (λ b. text_eq x.name other || b) (has_name-replace other y xs))
      (λ none_later.
        if_ind (λ (l : List Artifact). has_name other l ≡ has_name other (x ∷ xs))
          (text_eq x.name y.name)
          (λ same.
            ap (λ n. text_eq n other || has_name other xs) (sym (eq_of_text_eq x.name y.name same)))
          (λ _. refl))

pub length-replace :
    (name : Text) (y : Artifact) (xs : List Artifact) → length (replace name y xs) ≡ length xs
unfolding replace
length-replace name y [] = refl
length-replace name y (x ∷ xs) =
    if_ind (λ (l : List Artifact). length l ≡ length (x ∷ xs)) (has_name name xs)
      (λ _. omega (arith, length-replace name y xs))
      (λ _.
        if_ind (λ (l : List Artifact). length l ≡ length (x ∷ xs)) (text_eq x.name name) (λ _. refl)
          (λ _. refl))

pub Distinct-replace :
    (y : Artifact) (xs : List Artifact) → Distinct xs → Distinct (replace y.name y xs)
unfolding replace
Distinct-replace y [] hd = tt
Distinct-replace y (x ∷ xs) (hx, hd) =
    if_ind Distinct (has_name y.name xs)
      (λ _. (has_name-replace x.name y xs ∙ hx, Distinct-replace y xs hd))
      (λ none_later.
        if_ind Distinct (text_eq x.name y.name) (λ _. (none_later, hd)) (λ _. (hx, hd)))

pub All-replace :
    (P : Artifact → Type 0) (name : Text) (y : Artifact) (xs : List Artifact)
    → P y
    → All P xs
    → All P (replace name y xs)
unfolding replace
All-replace P name y [] hy hp = tt
All-replace P name y (x ∷ xs) hy (hx, hp) =
    if_ind (All P) (has_name name xs) (λ _. (hx, All-replace P name y xs hy hp))
      (λ _. if_ind (All P) (text_eq x.name name) (λ _. (hy, hp)) (λ _. (hx, hp)))

pub All-put :
    (P : Text × Text → Type 0) (id text : Text) (xs : List (Text × Text))
    → P (id, text)
    → All P xs
    → All P (put id text xs)
unfolding put
All-put P id text [] hp hx = (hp, tt)
All-put P id text ((key, old) ∷ xs) hp (hx, rest) =
    if_ind (All P) (text_eq key id) (λ _. (hp, rest)) (λ _. (hx, All-put P id text xs hp rest))

-- No artifact has the name of a later one.
abbrev pub NamedApart : List Artifact → Type 0
NamedApart [] = Unit
NamedApart (a ∷ more) = All (λ b. b.name ≢ a.name) more × NamedApart more

none_named :
    (name : Text) (xs : List Artifact) → has_name name xs ≡ false → All (λ b. b.name ≢ name) xs
unfolding has_name
none_named name [] h = tt
none_named name (x ∷ xs) h =
    (λ e. ground (arith, h, text_eq_refl name, rw e at h), none_named name xs (ground (arith, h)))

has_none :
    (name : Text) (xs : List Artifact) → All (λ b. b.name ≢ name) xs → has_name name xs ≡ false
unfolding has_name
has_none name [] h = refl
has_none name (x ∷ xs) (other, h) = elim (Bool-cases (text_eq x.name name)) [
  | inl same ↦ absurd (other (eq_of_text_eq x.name name same))
  | inr differs ↦ ground (arith, differs, has_none name xs h)
]

pub Distinct-NamedApart : (xs : List Artifact) → Distinct xs ↔ NamedApart xs
Distinct-NamedApart [] = (λ h. h, λ h. h)
Distinct-NamedApart (x ∷ xs) =
    let k = Distinct-NamedApart xs in
    (λ h. (none_named x.name xs h.0, k.0 h.1), λ h. (has_none x.name xs h.0, k.1 h.1))

pub contains_text-Any :
    (xs : List Text) (word : Text) → contains_text xs word ≡ true → Any (λ x. x ≡ word) xs
unfolding contains_text
contains_text-Any [] word h = absurd (ground (arith, h))
contains_text-Any (x ∷ xs) word h = elim (Bool-cases (text_eq x word)) [
  | inl same ↦ inl (eq_of_text_eq x word same)
  | inr other ↦ inr (contains_text-Any xs word (ground (arith, h, other)))
]
