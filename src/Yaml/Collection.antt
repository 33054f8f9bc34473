-- ===== src/Yaml/Collection.antt =====
pub mod Labels
pub mod Overloads
