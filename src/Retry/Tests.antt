-- ===== src/Retry/Tests.antt =====
-- The theorems on retries at concrete inputs.
use trilha_runner.Prelude.{
  ◌≡◌, ◌≤◌, ◌<◌, ◌*◌, ◌+◌, ◌-◌, ◌^◌, min, ◌⊎◌, ◌↔◌, refl, false, true, some, codes, arith, pos,
  to_lower, Text,
}
use trilha_runner.Retry.{
  Failure, classify_retry, retry_after, retry_delay, provider_transient, cancelled, environment,
  environment_words, base_delay, second, millisecond, field_int,
}
use trilha_runner.Retry.Classes.{Mentions, MayPass, classify_retry-transient}
use trilha_runner.Retry.Delays.{retry_delay_bounds}

abbrev failure : Text → Failure
failure message = record {
  message = message;
  is_canceled = false;
  is_deadline = false;
  is_policy = false;
}

abbrev overloaded : Failure
overloaded = failure (codes "HTTP 503, Retry-After: 7s")

overloaded_wait : retry_after (some overloaded) ≡ 7
unfolding retry_after
overloaded_wait = refl

overloaded_class : classify_retry (some overloaded) ≡ (provider_transient, true)
unfolding classify_retry
overloaded_class = refl

missing_class :
    classify_retry (some (failure (codes "sh: jq: Command not found (500)"))) ≡ (environment, false)
unfolding classify_retry
missing_class = refl

cancelled_class :
    classify_retry (some (record overloaded { is_canceled = true })) ≡ (cancelled, false)
unfolding classify_retry
cancelled_class = refl

field_int_trims : (field_int (codes " 12 ") 3 ≡ 12) × (field_int (codes "-1") 3 ≡ 3)
unfolding field_int
field_int_trims = (refl, refl)

classify_retry-transient_example : ((classify_retry (some overloaded)).1 ≡ true) ↔ (
    (overloaded.is_canceled ≡ false)
    × (¬ Mentions (to_lower overloaded.message) environment_words)
    × MayPass overloaded (to_lower overloaded.message))
classify_retry-transient_example = classify_retry-transient overloaded

retry_delay_bounds_example :
    ((0 < retry_after (some overloaded))
      × (retry_delay (pos second) 3 6 (some overloaded) ≡ retry_after (some overloaded) * second)
      × (retry_delay (pos second) 3 6 (some overloaded) ≤ 300 * second))
    ⊎ ((retry_after (some overloaded) ≡ 0)
        × (base_delay (pos second) * 2 ^ min (6 - 1) 4
            ≤ retry_delay (pos second) 3 6 (some overloaded))
        × (base_delay (pos second) ≤ retry_delay (pos second) 3 6 (some overloaded))
        × (retry_delay (pos second) 3 6 (some overloaded)
            ≤ base_delay (pos second) * 16 + 249 * millisecond))
retry_delay_bounds_example = retry_delay_bounds (pos second) 3 6 (some overloaded) (omega arith)
