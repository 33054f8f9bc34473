-- ===== src/Resources/Apiextensions.antt =====
-- The namespace `apiextensions` of pack/nodejs/provider.ts.
pub mod V1beta1
