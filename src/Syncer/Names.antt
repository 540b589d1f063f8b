-- ===== src/Syncer/Names.antt =====
-- The form of a slug.
use trilha_runner.Prelude.{
  ◌≡◌, refl, sym, subst, Bool, true, false, ◌&&◌, ◌||◌, not, [], ◌∷◌, Text, is_empty, to_lower,
  trim, trim_left, trim_right, if◌then◌else◌, arith,
}
use trilha_runner.Syncer.{is_slug_byte, is_dash, slug_from, slug}

-- Lower-case letters and digits, with single dashes between them; the flag forbids a dash.
abbrev pub is_tidy : Bool → Text → Bool
is_tidy no_dash [] = true
is_tidy no_dash (c ∷ s) =
    (is_slug_byte c && is_tidy false s) || (is_dash c && not no_dash && is_tidy true s)

abbrev pub ends_in_dash : Text → Bool
ends_in_dash [] = false
ends_in_dash (c ∷ []) = is_dash c
ends_in_dash (c ∷ d ∷ s) = ends_in_dash (d ∷ s)

slug_from-tidy :
    (started dash : Bool) (s : Text)
    → is_tidy (not started || dash) (slug_from started dash s) ≡ true
unfolding slug_from
slug_from-tidy started dash [] = refl
slug_from-tidy started dash (c ∷ s) =
    let word = slug_from-tidy true false s in
    let gap = slug_from-tidy true true s in
    let rest = slug_from-tidy started dash s in ground (arith, word, gap, rest)

trim_left_tidy : (s : Text) → is_tidy true s ≡ true → trim_left is_dash s ≡ s
unfolding trim_left
trim_left_tidy [] h = refl
trim_left_tidy (c ∷ s) h = ground (arith, h)

trim_right_tidy :
    (b : Bool) (s : Text) → is_tidy b s ≡ true → is_tidy b (trim_right is_dash s) ≡ true
unfolding trim_right
trim_right_tidy b [] h = refl
trim_right_tidy b (c ∷ s) h = ground (arith, h, trim_right_tidy true s, trim_right_tidy false s)

trim_right_ends : (s : Text) → ends_in_dash (trim_right is_dash s) ≡ false
unfolding trim_right
trim_right_ends [] = refl
trim_right_ends (c ∷ s) = longer (trim_right is_dash s) (trim_right_ends s)
  where
    longer :
        (rest : Text)
        → ends_in_dash rest ≡ false
        → ends_in_dash (if is_empty rest && is_dash c then [] else c ∷ rest) ≡ false
    longer [] h = ground arith
    longer (d ∷ u) h = h

-- A slug is lower-case letters and digits with single dashes between them, so that it names one
-- element of a branch: it neither starts nor ends with a dash and has no two together.
pub slug_lem :
    (value : Text) → (is_tidy true (slug value) ≡ true) × (ends_in_dash (slug value) ≡ false)
unfolding slug trim
slug_lem value =
    let tidy = slug_from-tidy false false (to_lower value) in
    let name = slug_from false false (to_lower value) in
    subst
      (λ l.
        (is_tidy true (trim_right is_dash l) ≡ true)
        × (ends_in_dash (trim_right is_dash l) ≡ false))
      (sym (trim_left_tidy name tidy)) (trim_right_tidy true name tidy, trim_right_ends name)
