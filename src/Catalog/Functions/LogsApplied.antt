-- ===== src/Catalog/Functions/LogsApplied.antt =====
-- The metadata of `logs_applied`, crates/reghive-worker/src/scalar/logs_applied.rs.
use vgi_reghive.Base.{some, List, [], ◌∷◌, ◌++◌, Text, codes}
use vgi_reghive.Catalog.Meta.{object_tags, example_queries_json}
use vgi_reghive.Catalog.Functions.{FunctionMetadata, native_example}

abbrev title_tags : List (Text × Text)
title_tags =
    object_tags (codes "Transaction-Log Replay Report")
      (codes "Inspect replaying a dirty hive's transaction logs (.LOG1/.LOG2): whether "
        ++ codes "a replay applies (the primary is dirty and the logs carry usable "
        ++ codes "entries), how many log entries would be replayed, the total dirty pages "
        ++ codes "they touch, whether the hive would become clean, and the log_format (old "
        ++ codes "pre-Win8.1 dirty-vector, new Win8.1+ HvLE entry stream, or none). Use it "
        ++ codes "when the logs are not co-located with the primary in a glob.")
      (codes "Report a transaction-log replay against supplied .LOG1/.LOG2 blobs: "
        ++ codes "applied, entries_replayed, dirty_pages, became_clean, log_format.")
      (codes "logs applied, transaction log, LOG1, LOG2, replay, recovery, dirty hive, "
        ++ codes "became clean, sequence number, HvLE")
      (codes "Transaction logs")

unfoldable pub metadata : FunctionMetadata
metadata = record {
  description =
      (codes "Report a transaction-log replay against supplied .LOG1/.LOG2 blobs: "
        ++ codes "applied, entries_replayed, dirty_pages, became_clean, log_format");
  examples =
      native_example (codes "SELECT reghive.main.logs_applied('regf'::BLOB, NULL, NULL);")
        (codes "Inspect a transaction-log replay (NULL struct for a non-hive blob).")
      ∷ [];
  tags =
      title_tags
      ++ (
        codes "vgi.example_queries",
        example_queries_json (
            (
              (codes "Inspect a transaction-log replay (NULL struct for a non-hive blob)."),
              (codes "SELECT reghive.main.logs_applied('regf'::BLOB, NULL, NULL);"),
            )
            ∷ []),
      )
        ∷ [];
  null_handling = some (codes "SPECIAL");
}
