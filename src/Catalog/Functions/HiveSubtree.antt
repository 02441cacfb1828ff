-- ===== src/Catalog/Functions/HiveSubtree.antt =====
-- The metadata of `hive_subtree`, crates/reghive-worker/src/table/hive_subtree.rs; the embedded
-- demo hive is a parameter.
use vgi_reghive.Base.{none, some, List, [], ◌∷◌, ◌++◌, Bytes, Text, codes}
use vgi_reghive.Catalog.Meta.{object_tags, example_queries_json}
use vgi_reghive.Catalog.Sample.{compact_blob_sql}
use vgi_reghive.Catalog.Functions.{FunctionMetadata, native_example, ArgSpec, const_arg}
use vgi_reghive.Catalog.Functions.Columns.{result_columns_schema}

abbrev title_tags : List (Text × Text)
title_tags =
    object_tags (codes "Read Hive Subtree")
      (codes "Scan only the subtree of a hive `BLOB` rooted at a given key_path "
        ++ codes "(recursive) into the same typed key/value rows as read_hive. The "
        ++ codes "targeted-triage surface for when you know where you're looking — a "
        ++ codes "Run-key branch, a Services subtree, or an AmCache "
        ++ codes "InventoryApplicationFile node — without materializing a whole large hive. "
        ++ codes "By default replays transaction logs (apply_logs) and recovers deleted "
        ++ codes "cells (recover_deleted).")
      (codes "Scan one subtree of a hive `BLOB` (rooted at key_path, recursive) into "
        ++ codes "the §5 key/value rows. Args: blob, key_path, apply_logs (default true), "
        ++ codes "recover_deleted (default true).")
      (codes "hive subtree, subtree, branch, scoped, run keys, services, amcache, "
        ++ codes "registry, regf, targeted, triage")
      (codes "Bulk parsing")

abbrev demo_run_key_path : Text
demo_run_key_path = (codes "Software\\Microsoft\\Windows\\CurrentVersion\\Run")

abbrev example_sql : Bytes → Text
example_sql demo_hive =
    ((codes "SELECT key_path, value_name, value_data FROM reghive.main.hive_subtree(")
      ++ (compact_blob_sql demo_hive
          ++ ((codes ", '") ++ (demo_run_key_path ++ (codes "') ORDER BY value_name")))))

abbrev example_desc : Text
example_desc =
    (codes "Read just the Run persistence branch of a hive without materializing the "
      ++ codes "whole tree.")

unfoldable pub metadata : Bytes → FunctionMetadata
metadata demo_hive = record {
  description = (codes "Read one subtree of a hive BLOB (rooted at key_path) into typed rows");
  examples = native_example (example_sql demo_hive) example_desc ∷ [];
  tags =
      title_tags
      ++ (codes "vgi.result_columns_schema", result_columns_schema)
        ∷ (
          codes "vgi.example_queries",
          example_queries_json ((example_desc, example_sql demo_hive) ∷ []),
        )
        ∷ [];
  null_handling = none;
}

abbrev pub argument_specs : List ArgSpec
argument_specs =
    (const_arg (codes "blob") (some 0) (codes "blob")
      (codes "The raw contents of a registry hive file, e.g. from read_blob('SYSTEM')."))
    ∷ (const_arg (codes "key_path") (some 1) (codes "varchar") (
        codes "The subtree root path from the hive root (root name omitted), e.g. "
        ++ codes "'Root\\InventoryApplicationFile' or 'ControlSet001\\Services'."))
    ∷ (const_arg (codes "apply_logs") none (codes "boolean")
        (codes "Replay sibling transaction logs before emitting rows (default true)."))
    ∷ (const_arg (codes "recover_deleted") none (codes "boolean") (
        codes "Reconstruct keys/values from unallocated cells; recovered rows are "
        ++ codes "flagged is_deleted (default true)."))
    ∷ []
