-- ===== src/Table.antt =====
-- The table functions, crates/reghive-worker/src/table.
pub mod Files
pub mod Rows
pub mod ReadHive
pub mod HiveSubtree
