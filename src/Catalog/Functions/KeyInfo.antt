-- ===== src/Catalog/Functions/KeyInfo.antt =====
-- The metadata of `key_info`, crates/reghive-worker/src/scalar/key_info.rs.
use vgi_reghive.Base.{none, List, [], ◌∷◌, ◌++◌, Text, codes}
use vgi_reghive.Catalog.Meta.{object_tags, example_queries_json}
use vgi_reghive.Catalog.Functions.{FunctionMetadata, native_example}

abbrev title_tags : List (Text × Text)
title_tags =
    object_tags (codes "Key Metadata")
      (codes "Return just a key's metadata for a given key_path in a hive `BLOB`: the "
        ++ codes "last-write UTC timestamp, the subkey and value counts, the class name "
        ++ codes "(usually NULL), and whether the key is a recovered deleted cell. "
        ++ codes "Materializes no value data, so it is cheap to call across many keys for "
        ++ codes "timeline pivots. Returns a NULL struct when the key is not found.")
      (codes "Return a key's metadata (last_write, subkey_count, value_count, "
        ++ codes "class_name, is_deleted) without reading its values. NULL struct if the "
        ++ codes "key is absent.")
      (codes "key info, key metadata, last write, subkey count, value count, timeline, "
        ++ codes "pivot, last modified")
      (codes "Targeted lookup")

unfoldable pub metadata : FunctionMetadata
metadata = record {
  description =
      (codes "Return a key's metadata (last_write, subkey_count, value_count, "
        ++ codes "class_name, is_deleted) without materializing its values");
  examples =
      native_example (codes "SELECT reghive.main.key_info('regf'::BLOB, 'Software\\Microsoft');")
        (codes "Cheap key-metadata pivot (NULL struct for a non-hive blob).")
      ∷ [];
  tags =
      title_tags
      ++ (
        codes "vgi.example_queries",
        example_queries_json (
            (
              (codes "Cheap key-metadata pivot (NULL struct for a non-hive blob)."),
              (codes "SELECT reghive.main.key_info('regf'::BLOB, 'Software\\Microsoft');"),
            )
            ∷ []),
      )
        ∷ [];
  null_handling = none;
}
