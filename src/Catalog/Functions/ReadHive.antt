-- ===== src/Catalog/Functions/ReadHive.antt =====
-- The metadata of `read_hive`, crates/reghive-worker/src/table/read_hive.rs; the embedded demo
-- hive is a parameter.
use vgi_reghive.Base.{none, some, List, [], ◌∷◌, ◌++◌, Bytes, Text, codes}
use vgi_reghive.Catalog.Meta.{object_tags, example_queries_json}
use vgi_reghive.Catalog.Sample.{compact_blob_sql}
use vgi_reghive.Catalog.Functions.{FunctionMetadata, native_example, ArgSpec, const_arg}
use vgi_reghive.Catalog.Functions.Columns.{result_columns_schema}

abbrev title_tags : List (Text × Text)
title_tags =
    object_tags (codes "Read Registry Hives")
      (codes "Scan Windows Registry hive files (regf: SYSTEM, SOFTWARE, NTUSER.DAT, "
        ++ codes "SAM, SECURITY, UsrClass.dat, AmCache.hve) into typed key/value rows for "
        ++ codes "DFIR. The first argument is either a local file glob (`VARCHAR`, e.g. "
        ++ codes "'/cases/*/NTUSER.DAT') or a single in-memory hive (`BLOB`, e.g. from "
        ++ codes "read_blob('s3://...')). By default it replays sibling .LOG1/.LOG2 "
        ++ codes "transaction logs to recover a dirty hive (apply_logs) and reconstructs "
        ++ codes "keys/values from unallocated cells (recover_deleted, flagged is_deleted). "
        ++ codes "The named `mode` argument is 'values' (one row per value, default), "
        ++ codes "'keys' (one row per key), or 'all' (both). Emits full key paths, value "
        ++ codes "name/type/data, the lossless value_raw bytes, per-key last-write "
        ++ codes "timestamps, and recovery/diagnostics tags. Join it to IOC, CVE, YARA, and "
        ++ codes "Sigma workers for fleet-scale registry triage.")
      (codes "Scan regf registry hives into typed key/value rows. Arg 1 is a local glob "
        ++ codes "(`VARCHAR`) or a hive `BLOB`. Named args: apply_logs (replay .LOG1/.LOG2, "
        ++ codes "default true), recover_deleted (default true), mode "
        ++ codes "('values'/'keys'/'all'). Pass a `BLOB` from read_blob() for cloud/s3 "
        ++ codes "hives.")
      (codes "read hive, registry, regf, NTUSER, SOFTWARE, SYSTEM, SAM, AmCache, DFIR, "
        ++ codes "forensics, persistence, run key, deleted, transaction log, recovery")
      (codes "Bulk parsing")

abbrev example_sql : Bytes → Text
example_sql demo_hive =
    ((codes "SELECT key_path, value_name, value_type, value_data FROM "
        ++ codes "reghive.main.read_hive(")
      ++ (compact_blob_sql demo_hive ++ (codes ") WHERE value_name = 'Updater'")))

abbrev example_desc : Text
example_desc =
    (codes "Scan a whole hive and pull the Run-key persistence value (Updater) it "
      ++ codes "plants — the bread-and-butter triage query.")

unfoldable pub metadata : Bytes → FunctionMetadata
metadata demo_hive = record {
  description = (codes "Read regf registry hives (glob or BLOB) into typed key/value rows");
  examples = native_example (example_sql demo_hive) example_desc ∷ [];
  tags =
      title_tags
      ++ (codes "vgi.result_columns_schema", result_columns_schema)
        ∷ (
          codes "vgi.example_queries",
          example_queries_json ((example_desc, example_sql demo_hive) ∷ []),
        )
        ∷ [];
  null_handling = none;
}

abbrev pub argument_specs : List ArgSpec
argument_specs =
    (const_arg (codes "glob_or_blob") (some 0) (codes "any") (
      codes "Either a local file glob (e.g. '/cases/*/NTUSER.DAT' — matching files are "
      ++ codes "read in sorted order) or a single in-memory hive read with read_blob. For "
      ++ codes "cloud hives (s3://, https://) fetch the bytes with read_blob(...) and "
      ++ codes "pass those."))
    ∷ (const_arg (codes "apply_logs") none (codes "boolean") (
        codes "Replay sibling .LOG1/.LOG2 transaction logs to recover a dirty hive "
        ++ codes "before emitting rows (default true). Set false to parse the primary file "
        ++ codes "as-is."))
    ∷ (const_arg (codes "recover_deleted") none (codes "boolean") (
        codes "Reconstruct keys/values from unallocated cells; recovered rows are "
        ++ codes "flagged is_deleted (default true)."))
    ∷ (const_arg (codes "mode") none (codes "varchar") (
        codes "Which rows to emit: 'values' (one row per value, default), 'keys' (one "
        ++ codes "row per key), or 'all' (both)."))
    ∷ []
