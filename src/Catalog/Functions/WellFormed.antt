-- ===== src/Catalog/Functions/WellFormed.antt =====
-- The metadata of `well_formed`, crates/reghive-worker/src/scalar/well_formed.rs.
use vgi_reghive.Base.{none, List, [], ◌∷◌, ◌++◌, Text, codes}
use vgi_reghive.Catalog.Meta.{object_tags, example_queries_json}
use vgi_reghive.Catalog.Functions.{FunctionMetadata, native_example}

abbrev title_tags : List (Text × Text)
title_tags =
    object_tags (codes "Validate Hive")
      (codes "Check whether a `BLOB` is a parseable primary regf hive without walking "
        ++ codes "it. Returns ok (boolean), the best-effort hive_type, a human error "
        ++ codes "message, and a kind tag (one of not-a-hive, bad-signature, bad-checksum, "
        ++ codes "truncated, short-base-block, bin-size-overrun). Never raises — a garbage "
        ++ codes "or truncated blob returns ok=false so a bulk scan never crashes on one "
        ++ codes "bad file.")
      (codes "Validate a `BLOB` as a regf hive: returns ok, hive_type, error, and a "
        ++ codes "kind tag. Never panics on hostile input.")
      (codes "well formed, validate, is hive, regf, bad signature, bad checksum, "
        ++ codes "truncated, corrupt, sanity check")
      (codes "Header & validation")

unfoldable pub metadata : FunctionMetadata
metadata = record {
  description = (codes "Validate a BLOB as a primary regf hive; never panics on hostile input");
  examples =
      native_example (codes "SELECT reghive.main.well_formed('not a hive'::BLOB);")
        (codes "Validate a blob as a regf hive (ok=false for non-hives).")
      ∷ [];
  tags =
      title_tags
      ++ (
        codes "vgi.example_queries",
        example_queries_json (
            (
              (codes "Validate a blob as a regf hive (ok=false for non-hives)."),
              (codes "SELECT reghive.main.well_formed('not a hive'::BLOB);"),
            )
            ∷ []),
      )
        ∷ (
          codes "vgi.executable_examples",
          (codes "[\n  {\n    \"description\": \"Validate that a non-hive blob is rejected "
              ++ codes "without crashing, exposing the well-formedness verdict and "
              ++ codes "reason.\",\n    \"sql\": \"SELECT (reghive.main.well_formed('not a "
              ++ codes "hive'::BLOB)).ok AS ok, (reghive.main.well_formed('not a "
              ++ codes "hive'::BLOB)).kind AS kind\"\n  }\n]"),
        )
        ∷ [];
  null_handling = none;
}
