-- ===== src/Scalar/KeyInfo.antt =====
-- `key_info`, crates/reghive-worker/src/scalar/key_info.rs.
use vgi_reghive.Base.{◌++◌, codes, map, true, Text, List, ◌∷◌, [], some, none, Bool, ℕ, Option}
use vgi_reghive.Base.{Bytes}
use vgi_reghive.Arrow.{DataType, ArrowCrate, Fields, Arrays, no_fields, new_field, ◌▸◌, no_arrays}
use vgi_reghive.Arrow.{◌▹◌, struct_of, utf8, binary, boolean, uint32, strings, booleans, uint32s}
use vgi_reghive.Arrow.{timestamps}
use vgi_reghive.ArrowMap.Schema.{timestamptz}
use vgi_reghive.Scalar.Answer.{Outcome, ArgSpec, column_typed, cells, found, conclude}
use mathlib.Core.Option
use vgi_reghive.Base.Int.{ℤ}
use vgi_reghive.Hive.Notatin.{Notatin, CellKey, Result, ok, err}
use vgi_reghive.Hive.Open.{OpenError, Opened, open_blob}
use vgi_reghive.Scalar.Io.{RpcError, Cell, blob_val, text_val, each_row, ◌>>=◌}

-- `class_name` is always null.
pub record KeyMeta : Type 0 where
  pub last_write : ℤ
  pub subkeys : ℕ
  pub values : ℕ
  pub is_deleted : Bool

module _ (N : Notatin) where
  -- `parser.get_key(key_path, false).ok().flatten()?` on a hive that opened.
  unfoldable pub find_key : Result OpenError (Opened N.Parser) → Text → Option CellKey
  find_key (ok o) key_path = N.get_key o.parser key_path
  find_key (err e) key_path = none

  unfoldable pub lookup : Bytes → Text → Option KeyMeta
  unfolding find_key
  lookup bytes key_path =
      Option.map
        (λ key. record {
          last_write = key.last_write;
          subkeys = key.subkey_count;
          values = key.value_count;
          is_deleted = key.deleted;
        })
        (find_key (open_blob N bytes true true []) key_path)

  unfoldable pub key_info_row : Cell → Cell → Option KeyMeta
  key_info_row (some bytes) (some path) = lookup bytes path
  key_info_row (some bytes) none = none
  key_info_row none path = none

  -- Each row has a blob and a path.
  unfoldable pub key_info :
      DataType → DataType → List (Cell × Cell) → Result RpcError (List (Option KeyMeta))
  unfolding key_info_row
  key_info tb tp rows =
      each_row
        (λ row.
          blob_val tb row.0 >>= λ blob. text_val tp row.1 >>= λ path. ok (key_info_row blob path))
        rows

-- The types of the answer and of the arguments.
abbrev pub fields : Fields
fields =
    new_field (codes "last_write") timestamptz true
    ▸ new_field (codes "subkey_count") uint32 true
    ▸ new_field (codes "value_count") uint32 true
    ▸ new_field (codes "class_name") utf8 true
    ▸ new_field (codes "is_deleted") boolean true
    ▸ no_fields

abbrev pub argument_specs : List ArgSpec
argument_specs =
    (column_typed (codes "blob") 0 binary (
      codes "The raw contents of a registry hive file, e.g. from "
      ++ codes "read_blob('NTUSER.DAT')."))
    ∷ (column_typed (codes "key_path") 1 utf8 (
        codes "The key path from the hive root (backslash-separated, root name "
        ++ codes "omitted), e.g. 'Software\\Microsoft\\Windows'."))
    ∷ []

-- The type that `on_bind` answers.
abbrev pub bound_type : DataType
bound_type = struct_of fields

unfoldable pub columns : List (Option KeyMeta) → Arrays
columns rows =
    timestamps (some (codes "UTC")) (cells (λ r. r.last_write) rows)
    ▹ uint32s (cells (λ r. r.subkeys) rows)
    ▹ uint32s (cells (λ r. r.values) rows)
    ▹ strings (map (λ r. none) rows)
    ▹ booleans (cells (λ r. r.is_deleted) rows)
    ▹ no_arrays

module _ (N : Notatin) (A : ArrowCrate) where
  unfoldable pub process : Fields → DataType → DataType → List (Cell × Cell) → Outcome A.Batch
  unfolding columns
  process schema tb tp rows =
      conclude A schema fields (λ rows. some (columns rows)) (λ rows. some (found rows))
        (key_info N tb tp rows)
