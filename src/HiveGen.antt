-- ===== src/HiveGen.antt =====
-- The synthetic hive builder, crates/reghive-core/src/hivegen.rs.
pub mod Spec
pub mod Cells
pub mod Layout
pub mod Build
pub mod Fixtures
pub mod Reader
