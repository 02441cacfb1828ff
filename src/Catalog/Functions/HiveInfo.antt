-- ===== src/Catalog/Functions/HiveInfo.antt =====
-- The metadata of `hive_info`, crates/reghive-worker/src/scalar/hive_info.rs.
use vgi_reghive.Base.{none, List, [], ◌∷◌, ◌++◌, Text, codes}
use vgi_reghive.Catalog.Meta.{object_tags, example_queries_json}
use vgi_reghive.Catalog.Functions.{FunctionMetadata, native_example}

abbrev title_tags : List (Text × Text)
title_tags =
    object_tags (codes "Hive Header Summary")
      (codes "Return the regf base-block summary of a hive `BLOB`: logical hive_type, "
        ++ codes "major/minor format version, the canonical root path, the "
        ++ codes "primary/secondary sequence numbers, the is_dirty recovery flag (true when "
        ++ codes "the checksum is wrong or the sequence numbers disagree), and the header's "
        ++ codes "last-written UTC timestamp. The triage-first probe to decide whether a "
        ++ codes "hive needs transaction-log recovery.")
      (codes "Summarize a hive's base block (type, version, sequence numbers, is_dirty, "
        ++ codes "last_written). Returns NULL for a non-hive blob.")
      (codes "hive info, base block, header, is_dirty, sequence number, version, "
        ++ codes "recovery, triage, regf")
      (codes "Header & validation")

unfoldable pub metadata : FunctionMetadata
metadata = record {
  description =
      (codes "Summarize a hive's base block: type, version, sequence numbers, dirty "
        ++ codes "flag, and last-written time");
  examples =
      native_example (codes "SELECT reghive.main.hive_info('\\x72656766'::BLOB);")
        (codes "Probe a hive's base-block summary (returns NULL on a non-hive blob).")
      ∷ [];
  tags =
      title_tags
      ++ (
        codes "vgi.example_queries",
        example_queries_json (
            (
              (codes "Probe a hive's base-block summary (returns NULL on a non-hive blob)."),
              (codes "SELECT reghive.main.hive_info('\\x72656766'::BLOB);"),
            )
            ∷ []),
      )
        ∷ [];
  null_handling = none;
}
