-- ===== src/Worker/Counts.antt =====
-- How often a claim is in a list of claims.
use trilha_runner.Prelude.{
  ℕ, zero, suc, ◌+◌, ◌==◌, List, [], ◌∷◌, ◌++◌, take, drop, ◌≡◌, arith, if◌then◌else◌,
}

-- How often a number is in a list.
abbrev pub count : ℕ → List ℕ → ℕ
count x [] = 0
count x (y ∷ ys) = (if x == y then 1 else 0) + count x ys

pub count-append : (x : ℕ) (xs ys : List ℕ) → count x (xs ++ ys) ≡ count x xs + count x ys
count-append x [] ys = omega arith
count-append x (y ∷ xs) ys = omega (arith, count-append x xs ys)

-- An element that goes from one place to another is in all as often as before.
pub count-split :
    (x at : ℕ) (xs : List ℕ)
    → count x (take at xs) + count x (take 1 (drop at xs)) + count x (drop (suc at) xs) ≡ count x xs
count-split x zero [] = omega arith
count-split x (suc at) [] = omega arith
count-split x zero (y ∷ xs) = omega arith
count-split x (suc at) (y ∷ xs) = omega (arith, count-split x at xs)
