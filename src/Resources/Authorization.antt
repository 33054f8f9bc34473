-- ===== src/Resources/Authorization.antt =====
-- The namespace `authorization` of pack/nodejs/provider.ts.
pub mod V1
pub mod V1beta1
