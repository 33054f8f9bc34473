-- ===== src/Types.antt =====
-- pack/nodejs/types: the interfaces of the arguments and of the outputs.
pub mod Shape
pub mod Test
pub mod Input
pub mod Output
pub mod Find
pub mod Closed
pub mod Plain
pub mod Fits
