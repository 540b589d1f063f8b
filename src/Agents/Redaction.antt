-- ===== src/Agents/Redaction.antt =====
-- What the scan of internal/redact/redact.go finds.
use trilha_runner.Prelude.{
  ◌≡◌, ◌↔◌, refl, Bool, true, false, ◌&&◌, List, [], ◌∷◌, Text, contains, leb, length, All, if_ind,
  arith,
}
use trilha_runner.Agents.{Pattern, mask, replace_all, scan_known, scan_patterns, scan}

-- A text with no known secret of six bytes or more, and no match of a pattern.
abbrev pub Lacks : Text → Text → Type 0
Lacks text secret = leb 6 (length secret) && contains text secret ≡ false

abbrev pub IsClear : List Pattern → List Text → Text → Type 0
IsClear patterns known text = All (Lacks text) known × All (λ p. p.matches text ≡ false) patterns

scan_known_found : (known : List Text) (text : Text) → (scan_known known (text, true)).1 ≡ true
unfolding scan_known
scan_known_found [] text = refl
scan_known_found (k ∷ ks) text =
    if_ind (λ (r : Text × Bool). (scan_known ks r).1 ≡ true) (leb 6 (length k) && contains text k)
      (λ _. scan_known_found ks (replace_all k mask 0 text)) (λ _. scan_known_found ks text)

scan_patterns_found : (ps : List Pattern) (text : Text) → (scan_patterns ps (text, true)).1 ≡ true
unfolding scan_patterns
scan_patterns_found [] text = refl
scan_patterns_found (p ∷ ps) text =
    if_ind (λ (r : Text × Bool). (scan_patterns ps r).1 ≡ true) (p.matches text)
      (λ _. scan_patterns_found ps (p.replaced text mask)) (λ _. scan_patterns_found ps text)

-- A scan that starts with nothing found finds nothing exactly when there is nothing, and then
-- leaves the text as it is.
abbrev Finds : Type 0 → Text → Text × Bool → Type 0
Finds P text r = ((r.1 ≡ false) ↔ P) × ((r.1 ≡ false) → r.0 ≡ text)

scan_known_lem :
    (known : List Text) (text : Text)
    → Finds (All (Lacks text) known) text (scan_known known (text, false))
unfolding scan_known
scan_known_lem [] text = ((λ _. tt, λ _. refl), λ _. refl)
scan_known_lem (k ∷ ks) text =
    let rest = scan_known_lem ks text in
    let found = scan_known_found ks (replace_all k mask 0 text) in
    if_ind (λ (r : Text × Bool). Finds (All (Lacks text) (k ∷ ks)) text (scan_known ks r))
      (leb 6 (length k) && contains text k)
      (λ has. (
        (λ h. absurd (ground (arith, h, found)), λ h. absurd (ground (arith, has, h.0))),
        λ h. absurd (ground (arith, h, found)),
      ))
      (λ lacks. ((λ h. (lacks, rest.0.0 h), λ h. rest.0.1 h.1), rest.1))

scan_patterns_lem :
    (ps : List Pattern) (text : Text)
    → Finds (All (λ p. p.matches text ≡ false) ps) text (scan_patterns ps (text, false))
unfolding scan_patterns
scan_patterns_lem [] text = ((λ _. tt, λ _. refl), λ _. refl)
scan_patterns_lem (p ∷ ps) text =
    let rest = scan_patterns_lem ps text in
    let found = scan_patterns_found ps (p.replaced text mask) in
    if_ind
      (λ (r : Text × Bool).
        Finds (All (λ q. q.matches text ≡ false) (p ∷ ps)) text (scan_patterns ps r))
      (p.matches text)
      (λ has. (
        (λ h. absurd (ground (arith, h, found)), λ h. absurd (ground (arith, has, h.0))),
        λ h. absurd (ground (arith, h, found)),
      ))
      (λ lacks. ((λ h. (lacks, rest.0.0 h), λ h. rest.0.1 h.1), rest.1))

both_scans :
    (ps : List Pattern) (known : List Text) (text : Text) (r : Text × Bool)
    → Finds (All (Lacks text) known) text r
    → Finds (IsClear ps known text) text (scan_patterns ps r)
both_scans ps known text (t, true) f =
    let found = scan_patterns_found ps t in
    (
      (λ h. absurd (ground (arith, h, found)), λ h. absurd (ground (arith, f.0.1 h.0))),
      λ h. absurd (ground (arith, h, found)),
    )
both_scans ps known text (t, false) f =
    let same : t ≡ text = f.1 refl in
    let rest = scan_patterns_lem ps text in
    rw same ((λ h. (f.0.0 refl, rest.0.0 h), λ h. rest.0.1 h.1), rest.1)

-- A scan finds nothing exactly when the text holds no known secret of six bytes or more and no
-- pattern matches it, and then the text is left as it is.
pub scan_lem :
    (patterns : List Pattern) (known : List Text) (text : Text)
    → (((scan patterns known text).1 ≡ false) ↔ IsClear patterns known text)
      × (((scan patterns known text).1 ≡ false) → (scan patterns known text).0 ≡ text)
unfolding scan
scan_lem patterns known text =
    both_scans patterns known text (scan_known known (text, false)) (scan_known_lem known text)
