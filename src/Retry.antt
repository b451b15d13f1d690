-- ===== src/Retry.antt =====
-- `withRetry` of xstreamroll-sdk/src/retry.ts. The function to retry, the predicate and the jitter
-- drawn before each retry are functions of the number of the attempt; what `sleep` and `onRetry` are
-- given is logged.
pub mod Budget
mod Tests
use xstream_roll.Shared.{
  ℕ, zero, suc, ◌+◌, ◌-◌, ◌*◌, ◌^◌, min, max, Bool, true, false, Option, none, some, List, [], ◌∷◌,
  if◌then◌else◌, ◌==◌, number_key,
}

pub data Outcome (A E : Type 0) : Type 0 where
  resolved : A → Outcome A E
  rejected : E → Outcome A E

pub record RetryOptions : Type 0 where
  pub max_attempts : Option ℕ
  pub base_delay_ms : Option ℕ
  pub max_delay_ms : Option ℕ
  pub jitter_ms : Option ℕ

abbrev or_default : Option ℕ → ℕ → ℕ
or_default none d = d
or_default (some n) d = n

unfoldable pub max_attempts_of : RetryOptions → ℕ
max_attempts_of o = max 1 (or_default o.max_attempts 3)

pub base_delay_of : RetryOptions → ℕ
base_delay_of o = or_default o.base_delay_ms 200

pub max_delay_of : RetryOptions → ℕ
unfolding base_delay_of
max_delay_of o = max (base_delay_of o) (or_default o.max_delay_ms 5000)

unfoldable pub jitter_of : RetryOptions → ℕ
jitter_of o = or_default o.jitter_ms 100

pub record Retried (A E : Type 0) : Type 0 where
  pub outcome : Outcome A E
  -- The number of the last attempt, how often the function was called, and the delays before the
  -- retries.
  pub attempts : ℕ
  pub calls : ℕ
  pub delays : List ℕ

-- `DEFAULT_RETRY_STATUSES.has(status)`
unfoldable pub is_retry_status : ℕ → Bool
is_retry_status status =
    if status == 408
    then true
    else if status == 425
    then true
    else if status == 429
    then true
    else if status == 500
    then true
    else if status == 502
    then true
    else if status == 503
    then true
    else status == 504

module _ {A E : Type 0} (f : ℕ → Outcome A E) (should_retry : E → ℕ → Bool) (draw : ℕ → ℕ) where
  pub delay_of : RetryOptions → ℕ → ℕ
  unfolding max_delay_of base_delay_of
  delay_of o attempt = min (max_delay_of o) (base_delay_of o * 2 ^ (attempt - 1)) + draw attempt

  -- The loop, with the number of attempts that are left after this one.
  unfoldable pub loop : RetryOptions → ℕ → ℕ → Retried A E
  unfolding delay_of
  loop o zero attempt = record { outcome = f attempt; attempts = attempt; calls = 1; delays = [] }
  loop o (suc left) attempt =
      let later = loop o left (suc attempt) in
      elim (f attempt) [
        | resolved a ↦ record { outcome = resolved a; attempts = attempt; calls = 1; delays = [] }
        | rejected e ↦
            if should_retry e attempt
            then record later {
              calls = suc later.calls;
              delays = delay_of o attempt ∷ later.delays;
            }
            else record { outcome = rejected e; attempts = attempt; calls = 1; delays = [] }
      ]

  unfoldable pub with_retry : RetryOptions → Retried A E
  unfolding loop max_attempts_of
  with_retry o = loop o (max_attempts_of o - 1) 1
