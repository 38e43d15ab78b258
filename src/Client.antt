-- ===== src/Client.antt =====
-- packages/client: what a call sends, and what it makes of the answer.
pub mod RpcJson
pub mod Retry
pub mod Dedupe
