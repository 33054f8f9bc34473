-- ===== src/Js.antt =====
-- The part of JavaScript that the package's TypeScript relies on: dynamic values and their
-- conversions, exceptions, and `JSON.stringify`.
pub mod Value
pub mod Outcome
pub mod Json
