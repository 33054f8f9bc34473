-- ===== src/Resources/Batch.antt =====
-- The namespace `batch` of pack/nodejs/provider.ts.
pub mod V1
pub mod V1beta1
pub mod V2alpha1
