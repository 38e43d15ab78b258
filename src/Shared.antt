-- ===== src/Shared.antt =====
-- packages/shared: the helpers that the other packages stand on.
pub mod Queue
pub mod Object
pub mod HttpPath
pub mod Replicate
pub mod Iterators
pub mod Interceptor
