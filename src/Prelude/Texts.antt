-- ===== src/Prelude/Texts.antt =====
-- Go strings as lists of bytes, with the operations of package strings that the program calls.
-- Case and white space are those of ASCII.
use Prim.Native.Nat.{ℕ, ◌+◌}
use Prim.Native.Char.{code}
use Prim.Native.String.{String}
use mathlib.Core.Path.{◌≡◌, refl, ap}
use mathlib.Core.Logic.{inl, inr, ◌↔◌}
use mathlib.Core.Bool.{Bool, true, false, ◌&&◌, ◌||◌}
use mathlib.Core.Option.{Option, none, some}
use mathlib.Core.List.{List, [], ◌∷◌, ◌++◌, map}
use native.Mathlib.Omega.{arith}
use trilha_runner.Prelude.Lists.{drop, length}
use trilha_runner.Prelude.Tests.{leb, ltb, Option-cases, ◌==◌, if◌then◌else◌, Bool-cases}

abbrev pub Text : Type 0
Text = List ℕ

-- The bytes of a literal.
abbrev pub codes : String → Text
codes String.[] = []
codes (String.◌∷◌ c s) = code c ∷ codes s

unfoldable pub text_eq : Text → Text → Bool
text_eq [] [] = true
text_eq (c ∷ s) (d ∷ t) = c == d && text_eq s t
text_eq _ _ = false

pub text_eq_refl : (s : Text) → text_eq s s ≡ true
unfolding text_eq
text_eq_refl [] = refl
text_eq_refl (c ∷ s) = ground (arith, text_eq_refl s)

pub eq_of_text_eq : (s t : Text) → text_eq s t ≡ true → s ≡ t
unfolding text_eq
eq_of_text_eq [] [] h = refl
eq_of_text_eq [] (d ∷ t) h = cc
eq_of_text_eq (c ∷ s) [] h = cc
eq_of_text_eq (c ∷ s) (d ∷ t) h = ground (arith, eq_of_text_eq s t)

pub text_eq_iff : (s t : Text) → (text_eq s t ≡ true) ↔ (s ≡ t)
text_eq_iff s t = (eq_of_text_eq s t, λ e. rw e (text_eq_refl t))

abbrev pub is_empty : Text → Bool
is_empty [] = true
is_empty (c ∷ s) = false

-- strings.HasPrefix
unfoldable pub has_prefix : Text → Text → Bool
has_prefix s [] = true
has_prefix [] (d ∷ p) = false
has_prefix (c ∷ s) (d ∷ p) = c == d && has_prefix s p

pub has_prefix-append : (p s : Text) → has_prefix (p ++ s) p ≡ true
unfolding has_prefix
has_prefix-append [] s = refl
has_prefix-append (c ∷ p) s = ground (arith, has_prefix-append p s)

pub has_prefix_split : (s p : Text) → has_prefix s p ≡ true → (rest : Text) × (s ≡ p ++ rest)
unfolding has_prefix
has_prefix_split s [] h = (s, refl)
has_prefix_split [] (d ∷ p) h = cc
has_prefix_split (c ∷ s) (d ∷ p) h =
    let (rest, e) = has_prefix_split s p (ground arith) in (rest, ground arith)

-- strings.Contains
unfoldable pub contains : Text → Text → Bool
unfolding has_prefix
contains [] p = has_prefix [] p
contains (c ∷ s) p = has_prefix (c ∷ s) p || contains s p

abbrev pub Occurs : Text → Text → Type 0
Occurs p s = (before : Text) × (after : Text) × (s ≡ before ++ (p ++ after))

pub contains-Occurs : (s p : Text) → contains s p ≡ true → Occurs p s
unfolding contains
contains-Occurs [] p h = let (rest, e) = has_prefix_split [] p h in ([], rest, e)
contains-Occurs (c ∷ s) p h = elim (Bool-cases (has_prefix (c ∷ s) p)) [
  | inl now ↦ let (rest, e) = has_prefix_split (c ∷ s) p now in ([], rest, e)
  | inr later ↦
      let (before, after, e) = contains-Occurs s p (rw later at h) in
      (c ∷ before, after, ap (λ t. c ∷ t) e)
]

contains_of_has_prefix : (s p : Text) → has_prefix s p ≡ true → contains s p ≡ true
unfolding contains
contains_of_has_prefix [] p h = h
contains_of_has_prefix (c ∷ s) p h = rw h

pub contains-append : (before p after : Text) → contains (before ++ (p ++ after)) p ≡ true
unfolding contains
contains-append [] p after = contains_of_has_prefix (p ++ after) p (has_prefix-append p after)
contains-append (c ∷ before) p after = ground (arith, contains-append before p after)

-- strings.Cut at a separator of one byte: what stands before, what stands after, and whether the
-- separator is there.
unfoldable pub cut : Text → ℕ → Text × Text × Bool
cut [] sep = ([], [], false)
cut (c ∷ s) sep =
    let (before, after, found) = cut s sep in
    if c == sep then ([], s, true) else (c ∷ before, after, found)

-- strings.ContainsRune of one byte
unfoldable pub contains_byte : Text → ℕ → Bool
contains_byte [] sep = false
contains_byte (c ∷ s) sep = c == sep || contains_byte s sep

pub cut_found : (s : Text) (sep : ℕ) → (cut s sep).2 ≡ contains_byte s sep
unfolding cut contains_byte
cut_found [] sep = refl
cut_found (c ∷ s) sep = ground (arith, cut_found s sep)

pub cut-append :
    (s : Text) (sep : ℕ) → (cut s sep).2 ≡ true → s ≡ (cut s sep).0 ++ (sep ∷ (cut s sep).1)
unfolding cut
cut-append [] sep h = cc
cut-append (c ∷ s) sep h = ground (arith, cut-append s sep)

pub cut-before : (s : Text) (sep : ℕ) → contains_byte (cut s sep).0 sep ≡ false
unfolding cut contains_byte
cut-before [] sep = refl
cut-before (c ∷ s) sep = ground (arith, cut-before s sep)

unfoldable pub is_space : ℕ → Bool
is_space c = c == 32 || (leb 9 c && leb c 13)

unfoldable pub trim_left : (ℕ → Bool) → Text → Text
trim_left p [] = []
trim_left p (c ∷ s) = let rest = trim_left p s in if p c then rest else c ∷ s

unfoldable pub trim_right : (ℕ → Bool) → Text → Text
trim_right p [] = []
trim_right p (c ∷ s) = let rest = trim_right p s in if is_empty rest && p c then [] else c ∷ rest

-- strings.TrimSpace
unfoldable pub trim_space : Text → Text
unfolding is_space trim_left trim_right
trim_space s = trim_right is_space (trim_left is_space s)

-- strings.ToLower
abbrev pub lower_byte : ℕ → ℕ
lower_byte c = if leb b'A' c && leb c b'Z' then c + 32 else c

unfoldable pub to_lower : Text → Text
to_lower s = map lower_byte s

-- strings.Fields: the word that the text begins with, possibly empty, and the words after it.
abbrev pub flush : Text × List Text → List Text
flush ([], words) = words
flush (c ∷ w, words) = (c ∷ w) ∷ words

fields_go : Text → Text × List Text
unfolding is_space
fields_go [] = ([], [])
fields_go (c ∷ s) =
    let rest = fields_go s in if is_space c then ([], flush rest) else (c ∷ rest.0, rest.1)

unfoldable pub fields : Text → List Text
unfolding fields_go
fields s = flush (fields_go s)

-- strings.CutSuffix, by the position where the rest is the suffix.
unfoldable pub strip_suffix : Text → Text → Option Text
unfolding text_eq
strip_suffix [] p = if text_eq [] p then some [] else none
strip_suffix (c ∷ s) p =
    let rest = strip_suffix s p in
    if text_eq (c ∷ s) p then some [] else elim rest [ none ↦ none | some t ↦ some (c ∷ t) ]

pub strip_suffix-append : (s p : Text) {t : Text} → strip_suffix s p ≡ some t → s ≡ t ++ p
unfolding strip_suffix
strip_suffix-append [] p h = ground (arith, eq_of_text_eq [] p)
strip_suffix-append (c ∷ s) p {t} h = elim (Bool-cases (text_eq (c ∷ s) p)) [
  | inl same ↦ let e : t ≡ [] = ground arith in rw e (eq_of_text_eq (c ∷ s) p same)
  | inr other ↦ elim (Option-cases (strip_suffix s p)) [
    | inl absent ↦ ground arith
    | inr (rest, found) ↦
        let ih = strip_suffix-append s p found in
        let e : t ≡ c ∷ rest = ground arith in rw e (ap (λ u. c ∷ u) ih)
  ]
]

-- The order of Go strings, byte by byte.
unfoldable pub text_lt : Text → Text → Bool
text_lt s [] = false
text_lt [] (d ∷ t) = true
text_lt (c ∷ s) (d ∷ t) = ltb c d || (c == d && text_lt s t)

pub text_lt_irrefl : (s : Text) → text_lt s s ≡ false
unfolding text_lt
text_lt_irrefl [] = refl
text_lt_irrefl (c ∷ s) = ground (arith, text_lt_irrefl s)

pub text_lt_trans : (s t u : Text) → text_lt s t ≡ true → text_lt t u ≡ true → text_lt s u ≡ true
unfolding text_lt
text_lt_trans s t [] h k = cc
text_lt_trans s [] (e ∷ u) h k = cc
text_lt_trans [] (d ∷ t) (e ∷ u) h k = refl
text_lt_trans (c ∷ s) (d ∷ t) (e ∷ u) h k = ground (arith, text_lt_trans s t u)

pub text_lt_asymm : (s t : Text) → text_lt s t ≡ true → text_lt t s ≡ false
unfolding text_lt
text_lt_asymm s [] h = cc
text_lt_asymm [] (d ∷ t) h = refl
text_lt_asymm (c ∷ s) (d ∷ t) h = ground (arith, text_lt_asymm s t)

pub text_le_trans : (s t u : Text) → text_lt t s ≡ false → text_lt u t ≡ false → text_lt u s ≡ false
unfolding text_lt
text_le_trans [] t u h k = refl
text_le_trans (c ∷ s) [] u h k = cc
text_le_trans (c ∷ s) (d ∷ t) [] h k = cc
text_le_trans (c ∷ s) (d ∷ t) (e ∷ u) h k = ground (arith, text_le_trans s t u)

-- The text after the first occurrence: value[strings.Index(value, p)+len(p):].
unfoldable pub rest_after : Text → Text → Option Text
unfolding has_prefix
rest_after [] p = if is_empty p then some [] else none
rest_after (c ∷ s) p =
    let later = rest_after s p in
    if has_prefix (c ∷ s) p then some (drop (length p) (c ∷ s)) else later

-- strings.Trim, by the set of bytes to take off.
unfoldable pub trim : (ℕ → Bool) → Text → Text
unfolding trim_left trim_right
trim p s = trim_right p (trim_left p s)

-- %q of a text of printable bytes.
abbrev pub escaped : ℕ → Text → Text
escaped c s = if c == b'"' || c == b'\\' then b'\\' ∷ c ∷ s else c ∷ s

unfoldable pub quote_on : Text → Text
quote_on [] = codes "\""
quote_on (c ∷ s) = escaped c (quote_on s)

unfoldable pub quote : Text → Text
unfolding quote_on
quote s = b'"' ∷ quote_on s
