-- ===== src/Wim.antt =====
-- The package wim: the reader of compressed resources, and the parser of a WIM file.
pub mod Decompress
pub mod Source
pub mod Resource
pub mod Directory
pub mod Image
pub mod Reader
mod Tests
