-- ===== src/Catalog/Functions/Published.antt =====
-- The functions that the worker registers (`register` of crates/reghive-worker/src/scalar/mod.rs and
-- table/mod.rs), and that what they publish hangs together.
use vgi_reghive.Base.{◌≡◌, refl, Bool, true, false, not, ◌&&◌, ◌||◌, Option, none, some, List, []}
use vgi_reghive.Base.{◌∷◌, ◌++◌, map, All, if◌then◌else◌, Bytes, Text, codes}
use vgi_reghive.Base.Strings.{text_eq, contains, starts_with}
use vgi_reghive.Catalog.Meta.{object_tags, example_queries_json, in_quotes}
use vgi_reghive.Catalog.Model.{categories}
use vgi_reghive.Catalog.Functions.{FunctionMetadata, FunctionExample}
use vgi_reghive.Catalog.Functions.WellFormed
use vgi_reghive.Catalog.Functions.HiveInfo
use vgi_reghive.Catalog.Functions.KeyInfo
use vgi_reghive.Catalog.Functions.HiveValue
use vgi_reghive.Catalog.Functions.HiveKey
use vgi_reghive.Catalog.Functions.LogsApplied
use vgi_reghive.Catalog.Functions.ReadHive
use vgi_reghive.Catalog.Functions.HiveSubtree

abbrev pub scalar_functions : List (Text × FunctionMetadata)
scalar_functions =
    (codes "hive_info", HiveInfo.metadata)
    ∷ (codes "well_formed", WellFormed.metadata)
    ∷ (codes "logs_applied", LogsApplied.metadata)
    ∷ (codes "key_info", KeyInfo.metadata)
    ∷ (codes "hive_key", HiveKey.metadata)
    ∷ (codes "hive_value", HiveValue.metadata)
    ∷ []

abbrev pub table_functions : Bytes → List (Text × FunctionMetadata)
table_functions demo_hive =
    (codes "read_hive", ReadHive.metadata demo_hive)
    ∷ (codes "hive_subtree", HiveSubtree.metadata demo_hive)
    ∷ []

-- The value of a tag.
unfoldable pub tag_of : Text → List (Text × Text) → Option Text
tag_of key [] = none
tag_of key ((k, value) ∷ tags) = if text_eq key k then some value else tag_of key tags

unfoldable is_among : Text → List (Text × Text) → Bool
is_among key [] = false
is_among key ((k, value) ∷ tags) = text_eq key k || is_among key tags

unfoldable pub all_distinct : List (Text × Text) → Bool
unfolding is_among
all_distinct [] = true
all_distinct ((k, value) ∷ tags) = not (is_among k tags) && all_distinct tags

-- The examples with their descriptions are those that the function has natively; the category is one
-- that the schema lists; and no tag is given twice.
pub record IsPublished (m : FunctionMetadata) : Type 0 where
  pub described :
      tag_of (codes "vgi.example_queries") m.tags
      ≡ some
          (example_queries_json (map (λ (e : FunctionExample). (e.description, e.sql)) m.examples))
  pub category : Text
  pub categorized : tag_of (codes "vgi.category") m.tags ≡ some category
  pub listed : contains (codes "\"name\":" ++ in_quotes category) categories ≡ true
  pub distinct : all_distinct m.tags ≡ true

in_category :
    {m : FunctionMetadata} (category : Text)
    → tag_of (codes "vgi.example_queries") m.tags
      ≡ some
          (example_queries_json (map (λ (e : FunctionExample). (e.description, e.sql)) m.examples))
    → tag_of (codes "vgi.category") m.tags ≡ some category
    → contains (codes "\"name\":" ++ in_quotes category) categories ≡ true
    → all_distinct m.tags ≡ true
    → IsPublished m
in_category c d k l u = record {
  described = d;
  category = c;
  categorized = k;
  listed = l;
  distinct = u;
}

-- Every registered function, whatever the demo hive is, has as its described examples exactly its native ones; its category is one that the schema lists; and none of its tags is given twice.
pub registered-IsPublished :
    (demo_hive : Bytes)
    → All
        (λ (f : Text × FunctionMetadata). IsPublished f.1)
        (scalar_functions ++ table_functions demo_hive)
unfolding WellFormed.metadata HiveInfo.metadata KeyInfo.metadata HiveValue.metadata HiveKey.metadata
    LogsApplied.metadata ReadHive.metadata HiveSubtree.metadata object_tags tag_of all_distinct
    text_eq contains starts_with
registered-IsPublished demo_hive =
    let header = codes "Header & validation" in
    let lookup = codes "Targeted lookup" in
    let bulk = codes "Bulk parsing" in
    (
      in_category header refl refl refl refl,
      (
        in_category header refl refl refl refl,
        (
          in_category (codes "Transaction logs") refl refl refl refl,
          (
            in_category lookup refl refl refl refl,
            (
              in_category lookup refl refl refl refl,
              (
                in_category lookup refl refl refl refl,
                (in_category bulk refl refl refl refl, (in_category bulk refl refl refl refl, tt)),
              ),
            ),
          ),
        ),
      ),
    )
