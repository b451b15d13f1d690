-- ===== src/Locks/Token.antt =====
-- The handle of a claim. A random UUID is an argument of the calls that draw one.
use xstream_roll.Shared.{ℕ, String}

pub record LockToken : Type 0 where
  pub stream_id : String
  pub worker_id : String
  pub token : String
  pub expires_at : ℕ
  pub acquired_at : ℕ
