-- ===== src/Ratelimit.antt =====
-- packages/ratelimit: the limiter that counts in memory.
pub mod Memory
