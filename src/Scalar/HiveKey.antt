-- ===== src/Scalar/HiveKey.antt =====
-- `hive_key`, crates/reghive-worker/src/scalar/hive_key.rs.
use vgi_reghive.Base.{◌++◌, codes, map, true, length, Text, List, ◌∷◌, [], some, none, Bool, ℕ}
use vgi_reghive.Base.{Option, Bytes}
use vgi_reghive.Arrow.{DataType, ArrowCrate, Fields, Field, Array, Arrays, no_fields, new_field}
use vgi_reghive.Arrow.{◌▸◌, no_arrays, ◌▹◌, struct_of, list, utf8, binary, boolean, uint32}
use vgi_reghive.Arrow.{strings, binaries, booleans, uint32s, timestamps, lists}
use vgi_reghive.ArrowMap.Schema.{timestamptz, value_struct_fields}
use vgi_reghive.Scalar.Answer.{Outcome, ArgSpec, column_typed, cells, found, conclude}
use mathlib.Core.Option
use vgi_reghive.Base.Int.{ℤ}
use vgi_reghive.Base.Strings.{trim_start}
use vgi_reghive.Hive.Notatin.{Notatin, Result, ok}
use vgi_reghive.Hive.Open.{open_blob}
use vgi_reghive.Hive.Value.{DecodedValue, decode}
use vgi_reghive.Hive.Walk.{backslash}
use vgi_reghive.Scalar.Io.{RpcError, Cell, blob_val, text_val, each_row, ◌>>=◌}
use vgi_reghive.Scalar.KeyInfo.{find_key}

-- `class_name` is always null.
pub record FoundKey : Type 0 where
  pub key_path : Text
  pub last_write : ℤ
  pub subkeys : ℕ
  pub values : ℕ
  pub is_deleted : Bool
  pub decoded : List DecodedValue

module _ (N : Notatin) where
  unfoldable pub lookup : Bytes → Text → Option FoundKey
  unfolding find_key
  lookup bytes key_path =
      Option.map
        (λ key. record {
          key_path = trim_start backslash key_path;
          last_write = key.last_write;
          subkeys = key.subkey_count;
          values = key.value_count;
          is_deleted = key.deleted;
          decoded = map decode key.values;
        })
        (find_key N (open_blob N bytes true true []) key_path)

  unfoldable pub hive_key_row : Cell → Cell → Option FoundKey
  hive_key_row (some bytes) (some path) = lookup bytes path
  hive_key_row (some bytes) none = none
  hive_key_row none path = none

  -- Each row has a blob and a path.
  unfoldable pub hive_key :
      DataType → DataType → List (Cell × Cell) → Result RpcError (List (Option FoundKey))
  unfolding hive_key_row
  hive_key tb tp rows =
      each_row
        (λ row.
          blob_val tb row.0 >>= λ blob. text_val tp row.1 >>= λ path. ok (hive_key_row blob path))
        rows

-- The types of the answer and of the arguments.
abbrev values_list_field : Field
values_list_field =
    new_field (codes "values")
      (list (new_field (codes "item") (struct_of value_struct_fields) true)) true

abbrev pub fields : Fields
fields =
    new_field (codes "key_path") utf8 true
    ▸ new_field (codes "last_write") timestamptz true
    ▸ new_field (codes "class_name") utf8 true
    ▸ new_field (codes "subkey_count") uint32 true
    ▸ new_field (codes "value_count") uint32 true
    ▸ new_field (codes "is_deleted") boolean true
    ▸ values_list_field
    ▸ no_fields

abbrev pub argument_specs : List ArgSpec
argument_specs =
    (column_typed (codes "blob") 0 binary (
      codes "The raw contents of a registry hive file, e.g. from "
      ++ codes "read_blob('NTUSER.DAT')."))
    ∷ (column_typed (codes "key_path") 1 utf8 (
        codes "The key path from the hive root (root name omitted), e.g. "
        ++ codes "'ControlSet001\\Services\\Schedule'."))
    ∷ []

-- The type that `on_bind` answers.
abbrev pub bound_type : DataType
bound_type = struct_of fields

-- The values of all keys that were found, one after the other, and how many each key has.
abbrev pub all_values : List (Option FoundKey) → List DecodedValue
all_values [] = []
all_values (none ∷ rows) = all_values rows
all_values (some k ∷ rows) = k.decoded ++ all_values rows

abbrev pub sizes : List (Option FoundKey) → List (Option ℕ)
sizes rows = cells (λ k. length k.decoded) rows

unfoldable pub value_columns : List DecodedValue → Arrays
value_columns dvs =
    strings (map (λ dv. dv.name) dvs)
    ▹ strings (map (λ dv. some dv.value_type) dvs)
    ▹ strings (map (λ dv. some dv.value_data) dvs)
    ▹ binaries (map (λ dv. some dv.value_raw) dvs)
    ▹ no_arrays

unfoldable pub key_columns : List (Option FoundKey) → Array → Arrays
key_columns rows elements =
    strings (cells (λ k. k.key_path) rows)
    ▹ timestamps (some (codes "UTC")) (cells (λ k. k.last_write) rows)
    ▹ strings (map (λ k. none) rows)
    ▹ uint32s (cells (λ k. k.subkeys) rows)
    ▹ uint32s (cells (λ k. k.values) rows)
    ▹ booleans (cells (λ k. k.is_deleted) rows)
    ▹ lists elements (sizes rows)
    ▹ no_arrays

module _ (A : ArrowCrate) where
  -- `append(true)` for each value; the list builder finishes the struct builder of its elements.
  unfoldable pub columns : List (Option FoundKey) → Option Arrays
  unfolding value_columns key_columns
  columns rows = Option.map (key_columns rows) (
      A.struct_finish value_struct_fields (value_columns (all_values rows))
        (map (λ dv. true) (all_values rows)))

module _ (N : Notatin) (A : ArrowCrate) where
  unfoldable pub process : Fields → DataType → DataType → List (Cell × Cell) → Outcome A.Batch
  unfolding columns
  process schema tb tp rows =
      conclude A schema fields (columns A) (λ rows. some (found rows)) (hive_key N tb tp rows)
