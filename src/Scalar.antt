-- ===== src/Scalar.antt =====
-- The scalar probes, crates/reghive-worker/src/scalar.
pub mod Io
pub mod Answer
pub mod WellFormed
pub mod HiveInfo
pub mod Verdicts
pub mod KeyInfo
pub mod Answers
pub mod HiveValue
pub mod HiveKey
pub mod KeyAnswers
pub mod Agree
pub mod Built
pub mod LogsApplied
