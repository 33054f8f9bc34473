-- ===== src/Resources/Extensions.antt =====
-- The namespace `extensions` of pack/nodejs/provider.ts.
pub mod V1beta1
