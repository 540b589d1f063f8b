-- ===== src/Retry/Delays.antt =====
-- retryAfter and retryDelay: how long the next attempt waits.
use trilha_runner.Prelude.{
  ℕ, zero, suc, ◌+◌, ◌-◌, ◌*◌, ◌^◌, ◌%◌, ◌≤◌, ◌<◌, min, ◌≡◌, List, [], ◌∷◌, ◌⊎◌, Option, none, some,
  arith, Text, codes, trim, fields, rest_after, to_lower, atoi, ℤ, pos, negsuc, ltb, Option-cases,
  Bool-cases, inl, inr,
}
use trilha_runner.Retry.{
  Failure, retry_after, first_wait, wait_of, or_else, wait_in, is_retry_mark, retry_delay,
  base_delay, second, millisecond, wrap64,
}

wait_of-le : (z : Option ℤ) (n : ℕ) → wait_of z ≡ some n → (0 < n) × (n ≤ 300)
wait_of-le none n h = cc
wait_of-le (some (negsuc k)) n h = cc
wait_of-le (some (pos k)) n h = ground arith

or_else-le : (o : Option ℤ) (n : ℕ) → n ≤ 300 → or_else (wait_of o) n ≤ 300
or_else-le o n h = elim (Option-cases (wait_of o)) [
  | inl absent ↦ rw absent h
  | inr (k, found) ↦ rw found (wait_of-le o k found).1
]

first_wait-le : (words : List Text) → first_wait words ≤ 300
unfolding first_wait
first_wait-le [] = omega arith
first_wait-le (w ∷ words) =
    or_else-le (atoi (trim is_retry_mark w)) (first_wait words) (first_wait-le words)

wait_in-le : (rest : Option Text) → wait_in rest ≤ 300
unfolding wait_in
wait_in-le none = omega arith
wait_in-le (some rest) = first_wait-le (fields rest)

-- A server's Retry-After is honoured only up to five minutes.
pub retry_after-le : (e : Option Failure) → retry_after e ≤ 300
unfolding retry_after
retry_after-le none = omega arith
retry_after-le (some e) = wait_in-le (rest_after (to_lower e.message) (codes "retry-after"))

power-bounds : (k : ℕ) → k ≤ 4 → (1 ≤ 2 ^ k) × (2 ^ k ≤ 16)
power-bounds zero h = omega arith
power-bounds (suc zero) h = omega arith
power-bounds (suc (suc zero)) h = omega arith
power-bounds (suc (suc (suc zero))) h = omega arith
power-bounds (suc (suc (suc (suc zero)))) h = omega arith
power-bounds (suc (suc (suc (suc (suc k))))) h = absurd (omega arith)

told_exact : (e : Option Failure) → wrap64 (retry_after e * second) ≡ retry_after e * second
told_exact e = omega (arith, retry_after-le e)

told-le : (e : Option Failure) → wrap64 (retry_after e * second) ≤ 300 * second
told-le e = omega (arith, retry_after-le e)

times-bounds : (b q : ℕ) → 1 ≤ q → q ≤ 16 → (b ≤ b * q) × (b * q ≤ b * 16)
times-bounds b q l u = grind arith

exponential_bounds :
    (b q x : ℕ)
    → 1 ≤ q
    → q ≤ 16
    → b ≤ 2 ^ 58
    → (b * q ≤ wrap64 (b * q + x % 250 * millisecond))
      × (b ≤ wrap64 (b * q + x % 250 * millisecond))
      × (wrap64 (b * q + x % 250 * millisecond) ≤ b * 16 + 249 * millisecond)
exponential_bounds b q x l u h = omega (arith, times-bounds b q l u)

-- The wait is the server's, at most 300 s, when the error carries one; otherwise it lies between
-- the base and sixteen times the base plus 249 ms, the exponential part being the base doubled
-- for every earlier attempt, at most four times. No int64 overflows for a base of up to 2^58 ns.
pub retry_delay_bounds :
    (retry_base : ℤ) (nanos attempt : ℕ) (e : Option Failure)
    → base_delay retry_base ≤ 2 ^ 58
    → ((0 < retry_after e)
        × (retry_delay retry_base nanos attempt e ≡ retry_after e * second)
        × (retry_delay retry_base nanos attempt e ≤ 300 * second))
      ⊎ ((retry_after e ≡ 0)
          × (base_delay retry_base * 2 ^ min (attempt - 1) 4
              ≤ retry_delay retry_base nanos attempt e)
          × (base_delay retry_base ≤ retry_delay retry_base nanos attempt e)
          × (retry_delay retry_base nanos attempt e
              ≤ base_delay retry_base * 16 + 249 * millisecond))
unfolding retry_delay
retry_delay_bounds retry_base nanos attempt e h = elim (Bool-cases (ltb 0 (retry_after e))) [
  | inl told ↦ inl (ground arith, rw told (told_exact e), rw told (told-le e))
  | inr untold ↦
      let (lo, up) = power-bounds (min (attempt - 1) 4) (omega arith) in
      let (a, b, c) =
        exponential_bounds (base_delay retry_base) (2 ^ min (attempt - 1) 4) nanos lo up h in
      inr (ground arith, rw untold a, rw untold b, rw untold c)
]
