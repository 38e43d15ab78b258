-- ===== src/Openapi.antt =====
-- packages/openapi: how data is written into paths and queries.
pub mod BracketPath
