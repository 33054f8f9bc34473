-- ===== src/Helm.antt =====
-- pack/nodejs/helm.ts.
pub mod Fetch
pub mod Chart
pub mod Commands
pub mod Cleanup
pub mod Expansion
pub mod Release
pub mod Parents
