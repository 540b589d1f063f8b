-- ===== src/Prelude/Number.antt =====
-- Go's signed int of 64 bits, as strconv.Atoi reads it.
use Prim.Native.Nat.{ℕ, zero, suc, ◌+◌, ◌-◌, ◌*◌, ◌^◌, ◌/◌, ◌%◌}
use mathlib.Core.Bool.{Bool, true, false, ◌&&◌}
use mathlib.Core.Option.{Option, none, some}
use mathlib.Core.List.{[], ◌∷◌, ◌++◌}
use trilha_runner.Prelude.Tests.{leb, ltb, ◌==◌, if◌then◌else◌}
use trilha_runner.Prelude.Texts.{Text}

-- `negsuc n` is -(n + 1).
pub data ℤ : Type 0 where
  pos : ℕ → ℤ
  negsuc : ℕ → ℤ

-- A number in decimal, as %d prints it; every step divides by ten, so that the fuel `n + 1` is
-- enough for `n`.
unfoldable itoa_on : ℕ → ℕ → Text
itoa_on zero n = []
itoa_on (suc left) n =
    let rest = itoa_on left (n / 10) in
    if ltb n 10 then (b'0' + n) ∷ [] else rest ++ ((b'0' + n % 10) ∷ [])

unfoldable pub itoa : ℕ → Text
unfolding itoa_on
itoa n = itoa_on (n + 1) n

-- The value of a text of digits only.
unfoldable pub digits : ℕ → Text → Option ℕ
digits acc [] = some acc
digits acc (c ∷ s) =
    let rest = digits (acc * 10 + (c - b'0')) s in if leb b'0' c && leb c b'9' then rest else none

abbrev in_range : Bool → Option ℕ → Option ℤ
in_range negative none = none
in_range false (some n) = if ltb n (2 ^ 63) then some (pos n) else none
in_range true (some zero) = some (pos 0)
in_range true (some (suc n)) = if ltb n (2 ^ 63) then some (negsuc n) else none

abbrev signed : Bool → Text → Option ℤ
signed negative [] = none
signed negative (c ∷ s) = in_range negative (unfold digits in digits 0 (c ∷ s))

-- strconv.Atoi; `none` is its error.
unfoldable pub atoi : Text → Option ℤ
unfolding digits
atoi [] = none
atoi (c ∷ s) =
    if c == b'-' then signed true s else if c == b'+' then signed false s else signed false (c ∷ s)
