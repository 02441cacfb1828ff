-- ===== src/Catalog/Functions.antt =====
-- The metadata of the registered functions, crates/reghive-worker/src/scalar and table, with their
-- descriptions, examples and tags. A module for each function has its texts.
pub mod Columns
pub mod WellFormed
pub mod HiveInfo
pub mod KeyInfo
pub mod HiveValue
pub mod HiveKey
pub mod LogsApplied
pub mod ReadHive
pub mod HiveSubtree
pub mod Published
use vgi_reghive.Base.{ℕ, Option, none, List, Text}

pub record FunctionExample : Type 0 where
  pub sql : Text
  pub description : Text
  pub expected_output : Option Text

-- The fields that the functions set; the others have the SDK's defaults.
pub record FunctionMetadata : Type 0 where
  pub description : Text
  pub examples : List FunctionExample
  pub tags : List (Text × Text)
  pub null_handling : Option Text

abbrev pub native_example : Text → Text → FunctionExample
native_example sql description = record {
  sql = sql;
  description = description;
  expected_output = none;
}

-- A constant argument: its name, its position (none for a named one, -1 in the code), its type and
-- its description.
pub data ArgSpec : Type 0 where
  const_arg : Text → Option ℕ → Text → Text → ArgSpec
