-- ===== src/Retry/Budget.antt =====
-- How often `withRetry` calls its function, and how long it waits.
use xstream_roll.Shared.{
  ℕ, zero, suc, ◌+◌, ◌-◌, ◌≤◌, ◌≡◌, ◌⊎◌, refl, sym, inl, inr, Bool, false, All, arith, Bool-cases,
}
use xstream_roll.Retry.{
  Outcome, resolved, rejected, RetryOptions, Retried, max_attempts_of, max_delay_of, jitter_of,
  delay_of, loop, with_retry,
}

module _ {A E : Type 0} (f : ℕ → Outcome A E) (should_retry : E → ℕ → Bool) (draw : ℕ → ℕ) where
  -- What is returned is what attempt `r.attempts` came to; it is final; and the function was called once
  -- for each attempt from the first.
  pub record IsFinal (o : RetryOptions) (from limit : ℕ) (r : Retried A E) : Type 0 where
    pub last : r.outcome ≡ f r.attempts
    pub within : r.attempts ≤ limit
    pub made : 1 ≤ r.calls
    pub counted : r.calls + from ≡ r.attempts + 1
    pub reason :
        (r.attempts ≡ limit)
        ⊎ (((a : A) × (r.outcome ≡ resolved a))
            ⊎ ((e : E) × (r.outcome ≡ rejected e) × (should_retry e r.attempts ≡ false)))
    pub bounded : All (λ d. d ≤ max_delay_of o + jitter_of o) r.delays

  loop-IsFinal :
      (o : RetryOptions) (left attempt limit : ℕ)
      → ((n : ℕ) → draw n ≤ jitter_of o)
      → attempt + left ≡ limit
      → IsFinal o attempt limit (loop f should_retry draw o left attempt)
  unfolding loop delay_of
  loop-IsFinal o zero attempt limit h e = record {
    last = refl;
    within = omega arith;
    made = omega arith;
    counted = omega arith;
    reason = inl (omega arith);
    bounded = tt;
  }
  loop-IsFinal o (suc left) attempt limit h e =
      go (loop-IsFinal o left (suc attempt) limit h (omega arith)) (f attempt) refl
    where
      go :
          IsFinal o (suc attempt) limit (loop f should_retry draw o left (suc attempt))
          → (out : Outcome A E) → f attempt ≡ out
          → IsFinal o attempt limit (loop f should_retry draw o (suc left) attempt)
      go v (resolved a) q =
          rw (q, loop)
            (record {
              last = sym q;
              within = omega arith;
              made = omega arith;
              counted = omega arith;
              reason = inr (inl (a, refl));
              bounded = tt;
            })
      go v (rejected x) q = elim (Bool-cases (should_retry x attempt)) [
        | inl again ↦
            rw (q, loop)
              (rw again (record {
                last = v.last;
                within = v.within;
                made = omega arith;
                counted = omega (arith, v.counted);
                reason = v.reason;
                bounded = (omega (arith, h attempt), v.bounded);
              }))
        | inr given_up ↦
            rw (q, loop)
              (rw given_up (record {
                last = sym q;
                within = omega arith;
                made = omega arith;
                counted = omega arith;
                reason = inr (inr (x, refl, given_up));
                bounded = tt;
              }))
      ]

  -- `withRetry` calls its function at least once and at most `maxAttempts` times, once for each attempt
  -- from the first, and returns what the last attempt came to; it stops before that limit only if an attempt succeeds or the predicate
  -- says that the error is not to be retried; and no wait is longer than the maximal delay and the
  -- jitter together.
  pub with_retry-IsFinal :
      (o : RetryOptions)
      → ((n : ℕ) → draw n ≤ jitter_of o)
      → (IsFinal o 1 (max_attempts_of o) (with_retry f should_retry draw o))
        × ((with_retry f should_retry draw o).calls ≤ max_attempts_of o)
  unfolding with_retry max_attempts_of
  with_retry-IsFinal o h =
      let final = loop-IsFinal o (max_attempts_of o - 1) 1 (max_attempts_of o) h (omega arith) in
      (final, omega (arith, final.within, final.counted))
