-- ===== src/Resources/Core.antt =====
-- The namespace `core` of pack/nodejs/provider.ts.
pub mod V1
