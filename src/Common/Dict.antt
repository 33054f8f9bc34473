-- ===== src/Common/Dict.antt =====
-- A JavaScript object used as a dictionary: its properties in the order of creation. Writing a
-- present key keeps the key's place, and an object spread writes the properties one after another.
mod Defs
mod Laws
unfoldable pub use Defs.*
pub use Laws.*
