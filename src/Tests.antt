-- ===== src/Tests.antt =====
-- Runs at concrete inputs, and each theorem with a hypothesis at an input that meets it.
mod World
mod Runs
mod Yaml
mod Groups
mod Types
mod Helm
