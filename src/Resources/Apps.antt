-- ===== src/Resources/Apps.antt =====
-- The namespace `apps` of pack/nodejs/provider.ts.
pub mod V1
pub mod V1beta1
pub mod V1beta2
