-- ===== src/Resources/Autoscaling.antt =====
-- The namespace `autoscaling` of pack/nodejs/provider.ts.
pub mod V1
pub mod V2beta1
