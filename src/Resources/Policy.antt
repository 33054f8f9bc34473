-- ===== src/Resources/Policy.antt =====
-- The namespace `policy` of pack/nodejs/provider.ts.
pub mod V1beta1
