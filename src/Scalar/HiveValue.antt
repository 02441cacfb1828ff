-- ===== src/Scalar/HiveValue.antt =====
-- `hive_value`, crates/reghive-worker/src/scalar/hive_value.rs.
use vgi_reghive.Base.{◌++◌, codes, map, true, Option, none, some, List, [], ◌∷◌, unwrap_or, Bytes}
use vgi_reghive.Base.{Text}
use vgi_reghive.Arrow.{DataType, ArrowCrate, Fields, Arrays, no_fields, new_field, ◌▸◌, no_arrays}
use vgi_reghive.Arrow.{◌▹◌, struct_of, utf8, binary, strings, binaries}
use vgi_reghive.Scalar.Answer.{Outcome, ArgSpec, column_typed, cells, found, conclude}
use vgi_reghive.Base
use mathlib.Core.Option
use vgi_reghive.Hive.Notatin.{Notatin, Result, ok}
use vgi_reghive.Hive.Open.{open_blob}
use vgi_reghive.Hive.Value.{DecodedValue, decode}
use vgi_reghive.Scalar.Io.{RpcError, Cell, blob_val, text_val, each_row, ◌>>=◌}
use vgi_reghive.Scalar.KeyInfo.{find_key}

pub record HiveValueRow : Type 0 where
  pub value_type : Text
  pub value_data : Text
  pub value_raw : Bytes

module _ (N : Notatin) where
  unfoldable pub lookup : Bytes → Text → Text → Option DecodedValue
  unfolding find_key
  lookup bytes key_path value_name =
      Base.◌>>=◌ (find_key N (open_blob N bytes true true []) key_path)
        λ key. Option.map decode (key.get_value value_name)

  unfoldable pub hive_value_row : Cell → Cell → Cell → Option HiveValueRow
  hive_value_row (some bytes) (some path) name =
      Option.map
        (λ dv. record {
          value_type = dv.value_type;
          value_data = dv.value_data;
          value_raw = dv.value_raw;
        })
        (lookup bytes path (unwrap_or name []))
  hive_value_row (some bytes) none name = none
  hive_value_row none path name = none

  -- Each row has a blob, a path and a value name; the name is read first.
  unfoldable pub hive_value :
      DataType
      → DataType
      → DataType
      → List (Cell × Cell × Cell)
      → Result RpcError (List (Option HiveValueRow))
  unfolding hive_value_row
  hive_value tb tp tn rows =
      each_row
        (λ row. text_val tn row.2 >>= λ name. blob_val tb row.0 >>= λ blob.
          text_val tp row.1 >>= λ path. ok (hive_value_row blob path name))
        rows

-- The types of the answer and of the arguments.
abbrev pub fields : Fields
fields =
    new_field (codes "value_type") utf8 true
    ▸ new_field (codes "value_data") utf8 true
    ▸ new_field (codes "value_raw") binary true
    ▸ no_fields

abbrev pub argument_specs : List ArgSpec
argument_specs =
    (column_typed (codes "blob") 0 binary (
      codes "The raw contents of a registry hive file, e.g. from "
      ++ codes "read_blob('NTUSER.DAT')."))
    ∷ (column_typed (codes "key_path") 1 utf8
        (codes "The key path from the hive root (root name omitted)."))
    ∷ (column_typed (codes "value_name") 2 utf8 (
        codes "The value name to read; an empty string or NULL selects the key's "
        ++ codes "(Default) value."))
    ∷ []

-- The type that `on_bind` answers.
abbrev pub bound_type : DataType
bound_type = struct_of fields

unfoldable pub columns : List (Option HiveValueRow) → Arrays
columns rows =
    strings (cells (λ r. r.value_type) rows)
    ▹ strings (cells (λ r. r.value_data) rows)
    ▹ binaries (cells (λ r. r.value_raw) rows)
    ▹ no_arrays

module _ (N : Notatin) (A : ArrowCrate) where
  unfoldable pub process :
      Fields → DataType → DataType → DataType → List (Cell × Cell × Cell) → Outcome A.Batch
  unfolding columns
  process schema tb tp tn rows =
      conclude A schema fields (λ rows. some (columns rows)) (λ rows. some (found rows))
        (hive_value N tb tp tn rows)
