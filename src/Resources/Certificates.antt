-- ===== src/Resources/Certificates.antt =====
-- The namespace `certificates` of pack/nodejs/provider.ts.
pub mod V1beta1
