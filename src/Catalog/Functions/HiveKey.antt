-- ===== src/Catalog/Functions/HiveKey.antt =====
-- The metadata of `hive_key`, crates/reghive-worker/src/scalar/hive_key.rs.
use vgi_reghive.Base.{none, List, [], ◌∷◌, ◌++◌, Text, codes}
use vgi_reghive.Catalog.Meta.{object_tags, example_queries_json}
use vgi_reghive.Catalog.Functions.{FunctionMetadata, native_example}

abbrev title_tags : List (Text × Text)
title_tags =
    object_tags (codes "Single Key as Struct")
      (codes "Return exactly one registry key from a hive `BLOB` as a struct: its "
        ++ codes "key_path, last-write UTC timestamp, class name, subkey/value counts, "
        ++ codes "deleted flag, and a `LIST` of its values (each a struct of value_name, "
        ++ codes "value_type, value_data, and the lossless value_raw bytes). Use it to pull "
        ++ codes "a single service, Run key, or settings node without scanning the whole "
        ++ codes "hive. Returns a NULL struct if the key is absent.")
      (codes "Return one key as a struct with its values inlined (value_name, "
        ++ codes "value_type, value_data, value_raw). NULL struct if the key is absent.")
      (codes "hive key, single key, get key, service, run key, struct, values, lookup")
      (codes "Targeted lookup")

unfoldable pub metadata : FunctionMetadata
metadata = record {
  description = (codes "Return one registry key as a struct with its values inlined");
  examples =
      native_example
        (codes "SELECT reghive.main.hive_key('regf'::BLOB, 'ControlSet001\\Services');")
        (codes "Look up a key as a struct (NULL struct for a non-hive blob).")
      ∷ [];
  tags =
      title_tags
      ++ (
        codes "vgi.example_queries",
        example_queries_json (
            (
              (codes "Look up a key as a struct (NULL struct for a non-hive blob)."),
              (codes "SELECT reghive.main.hive_key('regf'::BLOB, 'ControlSet001\\Services');"),
            )
            ∷ []),
      )
        ∷ [];
  null_handling = none;
}
