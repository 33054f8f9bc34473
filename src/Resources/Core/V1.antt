-- ===== src/Resources/Core/V1.antt =====
-- The namespace `core.v1` of pack/nodejs/provider.ts, in alphabetical parts.
pub mod AToE
pub mod FToO
pub mod PToR
pub mod SToZ
