-- ===== src/Resources/Admissionregistration.antt =====
-- The namespace `admissionregistration` of pack/nodejs/provider.ts.
pub mod V1alpha1
pub mod V1beta1
