-- ===== src/Tar.antt =====
-- The package backuptar: strconv.go, and of tar.go the basic information in a header, and the copying of
-- sparse files. Numbers are printed and parsed by Go's package strconv.
pub mod Decimal
pub mod PaxTime
pub mod Header
pub mod Sparse
mod Tests
