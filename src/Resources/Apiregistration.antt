-- ===== src/Resources/Apiregistration.antt =====
-- The namespace `apiregistration` of pack/nodejs/provider.ts.
pub mod V1beta1
