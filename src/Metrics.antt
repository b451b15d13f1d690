-- ===== src/Metrics.antt =====
-- The counters of xstreamroll-processing/src/metrics.ts. `activeLocks` is counted up and down, and
-- nothing keeps it from falling below zero.
use xstream_roll.Shared.{ℕ, suc, zero}

-- `negsuc n` is -(n + 1).
pub data ℤ : Type 0 where
  pos : ℕ → ℤ
  negsuc : ℕ → ℤ

abbrev pub inc : ℤ → ℤ
inc (pos n) = pos (suc n)
inc (negsuc zero) = pos 0
inc (negsuc (suc n)) = negsuc n

abbrev pub dec : ℤ → ℤ
dec (pos zero) = negsuc 0
dec (pos (suc n)) = pos n
dec (negsuc n) = negsuc (suc n)

pub record Metrics : Type 0 where
  pub messages_processed : ℕ
  pub errors : ℕ
  pub queue_depth : ℕ
  pub lock_acquisitions_total : ℕ
  pub lock_acquisitions_denied : ℕ
  pub lock_renewals_total : ℕ
  pub lock_renewals_failed : ℕ
  pub lock_releases_total : ℕ
  pub lock_releases_failed : ℕ
  pub active_locks : ℤ
  pub concurrent_route_dedupes : ℕ

unfoldable pub zeros : Metrics
zeros = record {
  messages_processed = 0;
  errors = 0;
  queue_depth = 0;
  lock_acquisitions_total = 0;
  lock_acquisitions_denied = 0;
  lock_renewals_total = 0;
  lock_renewals_failed = 0;
  lock_releases_total = 0;
  lock_releases_failed = 0;
  active_locks = pos 0;
  concurrent_route_dedupes = 0;
}

unfoldable pub increment_lock_acquisitions : Metrics → Metrics
increment_lock_acquisitions m = record m {
  lock_acquisitions_total = suc m.lock_acquisitions_total;
  active_locks = inc m.active_locks;
}

unfoldable pub increment_lock_acquisitions_denied : Metrics → Metrics
increment_lock_acquisitions_denied m = record m {
  lock_acquisitions_denied = suc m.lock_acquisitions_denied;
}

unfoldable pub increment_lock_renewals : Metrics → Metrics
increment_lock_renewals m = record m { lock_renewals_total = suc m.lock_renewals_total }

unfoldable pub increment_lock_renewals_failed : Metrics → Metrics
increment_lock_renewals_failed m = record m {
  lock_renewals_failed = suc m.lock_renewals_failed;
  active_locks = dec m.active_locks;
}

unfoldable pub increment_lock_releases : Metrics → Metrics
increment_lock_releases m = record m {
  lock_releases_total = suc m.lock_releases_total;
  active_locks = dec m.active_locks;
}

unfoldable pub increment_lock_releases_failed : Metrics → Metrics
increment_lock_releases_failed m = record m { lock_releases_failed = suc m.lock_releases_failed }

unfoldable pub increment_concurrent_route_dedupes : Metrics → Metrics
increment_concurrent_route_dedupes m = record m {
  concurrent_route_dedupes = suc m.concurrent_route_dedupes;
}
