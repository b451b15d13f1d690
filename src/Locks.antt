-- ===== src/Locks.antt =====
-- xstreamroll-processing/src/leader-election.ts: who owns a stream.
pub mod Token
pub mod Memory
pub mod Postgres
