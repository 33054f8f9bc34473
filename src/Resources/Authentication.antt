-- ===== src/Resources/Authentication.antt =====
-- The namespace `authentication` of pack/nodejs/provider.ts.
pub mod V1
pub mod V1beta1
