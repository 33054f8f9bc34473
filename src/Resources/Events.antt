-- ===== src/Resources/Events.antt =====
-- The namespace `events` of pack/nodejs/provider.ts.
pub mod V1beta1
