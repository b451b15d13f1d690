-- ===== src/Retry/Tests.antt =====
-- A function that succeeds at its third attempt.
use xstream_roll.Shared.{◌≤◌, ℕ, ◌≡◌, refl, Bool, none, [], ◌∷◌, leb, arith, if◌then◌else◌}
use xstream_roll.Retry.{
  Outcome, resolved, rejected, RetryOptions, max_attempts_of, base_delay_of, max_delay_of,
  jitter_of, is_retry_status, delay_of, loop, with_retry,
}
use xstream_roll.Retry.Budget.{IsFinal, with_retry-IsFinal}

abbrev third : ℕ → Outcome ℕ ℕ
third n = if leb 3 n then resolved n else rejected 503

abbrev on_status : ℕ → ℕ → Bool
on_status status attempt = is_retry_status status

abbrev ten : ℕ → ℕ
ten n = 10

abbrev defaults : RetryOptions
defaults = record {
  max_attempts = none;
  base_delay_ms = none;
  max_delay_ms = none;
  jitter_ms = none;
}

third_run : (with_retry third on_status ten defaults).delays ≡ 210 ∷ 410 ∷ []
unfolding with_retry loop delay_of max_attempts_of base_delay_of max_delay_of is_retry_status
third_run = refl

with_retry-IsFinal_example :
    (IsFinal third on_status ten defaults 1
      (max_attempts_of defaults)
      (with_retry third on_status ten defaults))
    × ((with_retry third on_status ten defaults).calls ≤ max_attempts_of defaults)
unfolding jitter_of
with_retry-IsFinal_example = with_retry-IsFinal third on_status ten defaults (λ n. omega arith)
