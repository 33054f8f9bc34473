-- ===== src/Resources/Rbac.antt =====
-- The namespace `rbac` of pack/nodejs/provider.ts.
pub mod V1
pub mod V1alpha1
pub mod V1beta1
