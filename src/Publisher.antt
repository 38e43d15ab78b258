-- ===== src/Publisher.antt =====
-- packages/publisher: events, listeners and iterators.
pub mod SequentialId
pub mod Bisect
pub mod Memory
pub mod Iterator
mod Tests
