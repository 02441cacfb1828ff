-- ===== src/Catalog/Functions/HiveValue.antt =====
-- The metadata of `hive_value`, crates/reghive-worker/src/scalar/hive_value.rs.
use vgi_reghive.Base.{some, List, [], ◌∷◌, ◌++◌, Text, codes}
use vgi_reghive.Catalog.Meta.{object_tags, example_queries_json}
use vgi_reghive.Catalog.Functions.{FunctionMetadata, native_example}

abbrev title_tags : List (Text × Text)
title_tags =
    object_tags (codes "Single Value as Struct")
      (codes "Return one named value from a key in a hive `BLOB` as a struct: the REG_* "
        ++ codes "value_type, the coerced value_data rendering, and the lossless value_raw "
        ++ codes "bytes. Pass an empty string or NULL value_name for the key's (Default) "
        ++ codes "value. Returns a NULL struct when the key or value is absent.")
      (codes "Return one named value as a struct (value_type, value_data, value_raw). "
        ++ codes "Empty/NULL name selects the (Default) value; NULL struct if absent.")
      (codes "hive value, single value, get value, default value, value_data, "
        ++ codes "value_raw, lookup")
      (codes "Targeted lookup")

unfoldable pub metadata : FunctionMetadata
metadata = record {
  description =
      (codes "Return a single named registry value as a struct (value_type, value_data, "
        ++ codes "value_raw)");
  examples =
      native_example (codes "SELECT reghive.main.hive_value('regf'::BLOB, 'Software', 'Run');")
        (codes "Read one named value (NULL struct for a non-hive blob).")
      ∷ [];
  tags =
      title_tags
      ++ (
        codes "vgi.example_queries",
        example_queries_json (
            (
              (codes "Read one named value (NULL struct for a non-hive blob)."),
              (codes "SELECT reghive.main.hive_value('regf'::BLOB, 'Software', 'Run');"),
            )
            ∷ []),
      )
        ∷ [];
  null_handling = some (codes "SPECIAL");
}
