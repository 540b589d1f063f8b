-- ===== src/Retry.antt =====
-- runner/retry_policy.go: which failures are worth another attempt, and how long to wait.
pub mod Classes
pub mod Delays
mod Tests
use trilha_runner.Prelude.{
  ℕ, suc, ◌+◌, ◌-◌, ◌*◌, ◌^◌, ◌%◌, min, Bool, true, false, ◌||◌, ◌&&◌, List, [], ◌∷◌, Option, none,
  some, codes, Text, contains, to_lower, trim_space, trim, fields, rest_after, atoi, ℤ, pos, negsuc,
  leb, ltb, ◌==◌, if◌then◌else◌,
}

-- An error: its text, and what errors.Is and errors.As say of it.
pub record Failure : Type 0 where
  pub message : Text
  pub is_canceled : Bool  -- context.Canceled
  pub is_deadline : Bool  -- context.DeadlineExceeded
  pub is_policy : Bool  -- *driver.PolicyError

pub data FailureClass : Type 0 where
  no_class cancelled environment provider_transient provider_permanent execution policy
        checks_failed :
      FailureClass

pub data ErrorCode : Type 0 where
  no_code missing_tool read_only_violated sandbox_required : ErrorCode

unfoldable pub contains_any : Text → List Text → Bool
unfolding contains
contains_any value [] = false
contains_any value (c ∷ cs) = contains value c || contains_any value cs

abbrev pub environment_words : List Text
environment_words =
    codes "exit status 127"
    ∷ codes "exited 127"
    ∷ codes "command not found"
    ∷ codes "executable file not found"
    ∷ []

unfoldable pub is_environment_failure : Text → Bool
unfolding contains_any
is_environment_failure value = contains_any value environment_words

abbrev pub timeout_words : List Text
timeout_words = codes "timeout" ∷ codes "connection reset" ∷ []

abbrev pub refusal_words : List Text
refusal_words =
    codes "quota" ∷ codes "401" ∷ codes "403" ∷ codes "unauthorized" ∷ codes "permission" ∷ []

abbrev pub busy_words : List Text
busy_words = codes "429" ∷ codes "500" ∷ codes "502" ∷ codes "503" ∷ codes "504" ∷ []

-- The switch of classifyRetry, over the lower-cased text.
unfoldable pub classify : Failure → Text → FailureClass × Bool
unfolding is_environment_failure
classify e value =
    if e.is_canceled
    then (cancelled, false)
    else if is_environment_failure value
    then (environment, false)
    else if e.is_deadline || contains_any value timeout_words
    then (provider_transient, true)
    else if contains_any value refusal_words
    then (provider_permanent, false)
    else if contains_any value busy_words
    then (provider_transient, true)
    else (execution, false)

unfoldable pub classify_retry : Option Failure → FailureClass × Bool
unfolding classify to_lower
classify_retry none = (no_class, false)
classify_retry (some e) = classify e (to_lower e.message)

unfoldable pub error_code_for : FailureClass → ErrorCode
error_code_for environment = missing_tool
error_code_for _ = no_code

-- The cutset ":=,;s".
abbrev is_retry_mark : ℕ → Bool
is_retry_mark c = c == b':' || c == b'=' || c == b',' || c == b';' || c == b's'

abbrev wait_of : Option ℤ → Option ℕ
wait_of (some (pos n)) = if ltb 0 n && leb n 300 then some n else none
wait_of _ = none

abbrev or_else : Option ℕ → ℕ → ℕ
or_else none rest = rest
or_else (some n) rest = n

first_wait : List Text → ℕ
unfolding trim atoi
first_wait [] = 0
first_wait (word ∷ words) = or_else (wait_of (atoi (trim is_retry_mark word))) (first_wait words)

abbrev wait_in : Option Text → ℕ
unfolding first_wait fields
wait_in none = 0
wait_in (some rest) = first_wait (fields rest)

unfoldable pub retry_after : Option Failure → ℕ
unfolding first_wait fields rest_after to_lower
retry_after none = 0
retry_after (some e) = wait_in (rest_after (to_lower e.message) (codes "retry-after"))

-- Durations are int64 nanoseconds, as bit patterns; time.Second and time.Millisecond.
abbrev pub wrap64 : ℕ → ℕ
wrap64 n = n % 2 ^ 64

abbrev pub second : ℕ
second = 1_000_000_000

abbrev pub millisecond : ℕ
millisecond = 1_000_000

abbrev pub base_delay : ℤ → ℕ
base_delay (pos n) = if n == 0 then second else n
base_delay (negsuc n) = second

-- retryDelay of an attempt numbered from 1; `nanos` is what the clock reads, for the jitter.
unfoldable pub retry_delay : ℤ → ℕ → ℕ → Option Failure → ℕ
unfolding retry_after
retry_delay retry_base nanos attempt e =
    let seconds = retry_after e in
    if ltb 0 seconds
    then wrap64 (seconds * second)
    else wrap64 (base_delay retry_base * 2 ^ min (attempt - 1) 4 + nanos % 250 * millisecond)

abbrev field_value : ℕ → Option ℤ → ℕ
field_value fallback (some (pos n)) = if n == 0 then fallback else n
field_value fallback _ = fallback

unfoldable pub field_int : Text → ℕ → ℕ
unfolding atoi trim_space
field_int value fallback = field_value fallback (atoi (trim_space value))
