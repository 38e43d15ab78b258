-- ===== src/Batch.antt =====
-- The batch plugins of both sides: packages/client/src/plugins/batch.ts and
-- packages/server/src/plugins/batch.ts.
pub mod Frames
pub mod Headers
pub mod Groups
pub mod Requests
