-- ===== src/Examples.antt =====
-- The theorems at concrete inputs, and tests of the definitions.
pub mod Samples
pub mod Tests
pub mod Formats
pub mod Checksums
pub mod Values
pub mod Hives
pub mod Built
pub mod Catalogs
pub mod Scans
pub mod Columns
