-- ===== src/Resources/Scheduling.antt =====
-- The namespace `scheduling` of pack/nodejs/provider.ts.
pub mod V1alpha1
