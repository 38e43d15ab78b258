-- ===== src/Server.antt =====
-- packages/server: how a procedure runs.
pub mod Procedure
pub mod Cors
pub mod Guards
