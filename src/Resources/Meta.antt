-- ===== src/Resources/Meta.antt =====
-- The namespace `meta` of pack/nodejs/provider.ts.
pub mod V1
