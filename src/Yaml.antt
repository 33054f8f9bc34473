-- ===== src/Yaml.antt =====
-- The namespace `yaml` of pack/nodejs/provider.ts.
pub mod Case
pub mod Switch
pub mod Collection
pub mod Dispatch
pub mod Object
pub mod Document
