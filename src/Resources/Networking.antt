-- ===== src/Resources/Networking.antt =====
-- The namespace `networking` of pack/nodejs/provider.ts.
pub mod V1
