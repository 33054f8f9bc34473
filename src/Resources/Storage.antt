-- ===== src/Resources/Storage.antt =====
-- The namespace `storage` of pack/nodejs/provider.ts.
pub mod V1
pub mod V1alpha1
pub mod V1beta1
