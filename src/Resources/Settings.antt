-- ===== src/Resources/Settings.antt =====
-- The namespace `settings` of pack/nodejs/provider.ts.
pub mod V1alpha1
