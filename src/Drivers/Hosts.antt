-- ===== src/Drivers/Hosts.antt =====
-- The hosts that validateAllowedHost of driver/ai.go lets through.
use trilha_runner.Prelude.{
  true, false, List, [], ◌∷◌, ◌++◌, Option, none, some, is_some, Text, codes, text_eq, text_eq_refl,
  eq_of_text_eq, is_empty, has_prefix-append, has_prefix_split, strip_suffix, strip_suffix-append,
  trim_space, to_lower, drop, ◌≡◌, ◌↔◌, ◌⊎◌, inl, inr, refl, ap, ◌∙◌, arith, Any, Bool-cases,
  Option-cases, subst,
}
use trilha_runner.Drivers.{matches_host, some_host, validate_allowed_host, has_suffix}

-- A candidate names the host, or a domain above it after "*".
abbrev pub Matches : Text → Text → Type 0
Matches host raw =
    (to_lower (trim_space raw) ≡ host)
    ⊎ ((domain : Text) × (sub : Text) × (to_lower (trim_space raw) ≡ codes "*." ++ domain)
        × (host ≡ sub ++ (b'.' ∷ domain)))

strip_suffix_here : (p : Text) → is_some (strip_suffix p p) ≡ true
unfolding strip_suffix text_eq
strip_suffix_here [] = refl
strip_suffix_here (c ∷ p) = rw (text_eq_refl (c ∷ p)) refl

has_suffix-append : (t p : Text) → has_suffix (t ++ p) p ≡ true
unfolding has_suffix strip_suffix
has_suffix-append [] p = strip_suffix_here p
has_suffix-append (c ∷ t) p = ground (arith, has_suffix-append t p)

has_suffix_split : (s p : Text) → has_suffix s p ≡ true → (t : Text) × (s ≡ t ++ p)
unfolding has_suffix
has_suffix_split s p h = elim (Option-cases (strip_suffix s p)) [
  | inl absent ↦ ground arith
  | inr (t, found) ↦ (t, strip_suffix-append s p found)
]

matches_host-Matches : (host raw : Text) → (matches_host host raw ≡ true) ↔ Matches host raw
unfolding matches_host
matches_host-Matches host raw =
    let candidate = to_lower (trim_space raw) in
    (
      λ h. elim (Bool-cases (text_eq candidate host)) [
        | inl same ↦ inl (eq_of_text_eq candidate host same)
        | inr other ↦
            let (domain, e) = has_prefix_split candidate (codes "*.") (ground (arith, h, other)) in
            let (sub, split) =
              has_suffix_split host (drop 1 candidate) (ground (arith, h, other)) in
            inr (domain, sub, e, split ∙ ap (λ c. sub ++ drop 1 c) e)
      ],
      λ m. elim m [
        | inl e ↦ rw e (ground (arith, text_eq_refl host))
        | inr (domain, sub, e, split) ↦
            rw (e, split)
              (ground (
                arith,
                has_suffix-append sub (b'.' ∷ domain),
                has_prefix-append (codes "*.") domain,
              ))
      ],
    )

some_host-Any :
    (host : Text) (candidates : List Text)
    → (some_host host candidates ≡ true) ↔ Any (Matches host) candidates
unfolding some_host
some_host-Any host [] = (λ h. cc, λ h. absurd h)
some_host-Any host (candidate ∷ candidates) =
    let one = matches_host-Matches host candidate in
    let others = some_host-Any host candidates in
    (
      λ h. elim (Bool-cases (matches_host host candidate)) [
        | inl here ↦ inl (one.0 here)
        | inr not_here ↦ inr (others.0 (ground (arith, h, not_here)))
      ],
      λ m. elim m [
        | inl here ↦ ground (arith, one.1 here)
        | inr later ↦ ground (arith, others.1 later)
      ],
    )

allowed_host :
    (name candidate : Text) (candidates : List Text)
    → (is_empty name ≡ false)
    → (some_host (to_lower name) (candidate ∷ candidates) ≡ true)
    → validate_allowed_host (some name) (candidate ∷ candidates) ≡ none
unfolding validate_allowed_host
allowed_host name candidate candidates named found = rw (named, found) refl

-- An AI provider is let through exactly when the list of hosts is empty, or the URL has a host that,
-- in lower case, is one of the list or lies below a domain that the list has after "*.".
pub validate_allowed_host-Any :
    (parsed : Option Text) (allowed : List Text)
    → (validate_allowed_host parsed allowed ≡ none) ↔ (
        (allowed ≡ [])
        ⊎ ((name : Text) × (parsed ≡ some name)
            × (is_empty name ≡ false)
            × Any (Matches (to_lower name)) allowed))
unfolding validate_allowed_host
validate_allowed_host-Any parsed [] = (λ _. inl refl, λ _. refl)
validate_allowed_host-Any none (candidate ∷ candidates) =
    (λ h. cc, λ h. elim h [ inl e ↦ cc | inr (name, e, named, any) ↦ cc ])
validate_allowed_host-Any (some name) (candidate ∷ candidates) =
    let hosts = some_host-Any (to_lower name) (candidate ∷ candidates) in
    (
      λ h. elim (Bool-cases (is_empty name)) [
        | inl bare ↦ ground (arith, h, bare)
        | inr named ↦ elim (Bool-cases (some_host (to_lower name) (candidate ∷ candidates))) [
          | inl found ↦ inr (name, refl, named, hosts.0 found)
          | inr absent ↦ ground (arith, h, named, absent)
        ]
      ],
      λ h. elim h [
        | inl e ↦ cc
        | inr (other, e, named, any) ↦
            let same : other ≡ name = cc in
            subst (λ n. validate_allowed_host (some n) (candidate ∷ candidates) ≡ none) same
              (allowed_host other candidate candidates named
                ((some_host-Any (to_lower other) (candidate ∷ candidates)).1 any))
      ],
    )
