-- ===== src/Scalar/HiveInfo.antt =====
-- `hive_info`, crates/reghive-worker/src/scalar/hive_info.rs.
use vgi_reghive.Base.{◌++◌, codes, true, false, Text, List, ◌∷◌, [], some, none, Bool, ℕ, ◌%◌}
use vgi_reghive.Base.{◌^◌, Option}
use vgi_reghive.Arrow.{DataType, ArrowCrate, Fields, Arrays, no_fields, new_field, ◌▸◌, no_arrays}
use vgi_reghive.Arrow.{◌▹◌, struct_of, utf8, binary, boolean, uint16, uint32, strings, booleans}
use vgi_reghive.Arrow.{uint16s, uint32s, timestamps}
use vgi_reghive.ArrowMap.Schema.{timestamptz}
use vgi_reghive.Scalar.Answer.{Outcome, ArgSpec, column_typed, cells, nullable_cells, found}
use vgi_reghive.Scalar.Answer.{conclude}
use mathlib.Core.Option
use vgi_reghive.Base.Int.{ℤ}
use vgi_reghive.Hive.Notatin.{Notatin, Result, ok}
use vgi_reghive.Hive.Open.{open_blob}
use vgi_reghive.BaseBlock.{BaseBlock, parse, hive_type, is_dirty, filetime_to_unix_micros}
use vgi_reghive.BaseBlock.Sniff
use vgi_reghive.Scalar.Io.{RpcError, Cell, blob_val, each_row, ◌>>=◌}
use vgi_reghive.Scalar.WellFormed.{root_of}

pub record HiveInfoRow : Type 0 where
  pub hive_type : Text
  pub major : ℕ
  pub minor : ℕ
  pub root_path : Option Text
  pub primary_seq : ℕ
  pub secondary_seq : ℕ
  pub is_dirty : Bool
  pub last_written : ℤ

-- `Some(r) if !r.is_empty()`
unfoldable pub root_path_of : Option Text → Option Text
root_path_of none = none
root_path_of (some []) = none
root_path_of (some (c ∷ r)) = some (c ∷ r)

-- `as u16`
abbrev pub as_u16 : ℕ → ℕ
as_u16 v = v % 2 ^ 16

unfoldable pub info_of : BaseBlock → Option Text → HiveInfoRow
info_of bb root = record {
  hive_type = Sniff.label (hive_type bb root);
  major = as_u16 bb.major;
  minor = as_u16 bb.minor;
  root_path = root_path_of root;
  primary_seq = bb.primary_seq;
  secondary_seq = bb.secondary_seq;
  is_dirty = is_dirty bb;
  last_written = filetime_to_unix_micros bb.last_written_filetime;
}

-- A null struct where there is no base block.
module _ (N : Notatin) where
  unfoldable pub hive_info_row : Cell → Option HiveInfoRow
  unfolding info_of root_path_of root_of
  hive_info_row none = none
  hive_info_row (some bytes) =
      Option.map (λ bb. info_of bb (root_of (open_blob N bytes false false []))) (parse bytes).0

  unfoldable pub hive_info : DataType → List Cell → Result RpcError (List (Option HiveInfoRow))
  hive_info t cells = each_row (λ cell. blob_val t cell >>= λ blob. ok (hive_info_row blob)) cells

-- The types of the answer and of the arguments.
abbrev pub fields : Fields
fields =
    new_field (codes "hive_type") utf8 true
    ▸ new_field (codes "major") uint16 true
    ▸ new_field (codes "minor") uint16 true
    ▸ new_field (codes "root_path") utf8 true
    ▸ new_field (codes "primary_seq") uint32 true
    ▸ new_field (codes "secondary_seq") uint32 true
    ▸ new_field (codes "is_dirty") boolean true
    ▸ new_field (codes "last_written") timestamptz true
    ▸ no_fields

abbrev pub argument_specs : List ArgSpec
argument_specs =
    (column_typed (codes "blob") 0 binary (
      codes "The raw contents of a registry hive file, e.g. from "
      ++ codes "read_blob('NTUSER.DAT'). NULL or a non-hive input yields a NULL "
      ++ codes "struct."))
    ∷ []

-- The type that `on_bind` answers.
abbrev pub bound_type : DataType
bound_type = struct_of fields

unfoldable pub columns : List (Option HiveInfoRow) → Arrays
columns rows =
    strings (cells (λ r. r.hive_type) rows)
    ▹ uint16s (cells (λ r. r.major) rows)
    ▹ uint16s (cells (λ r. r.minor) rows)
    ▹ strings (nullable_cells (λ r. r.root_path) rows)
    ▹ uint32s (cells (λ r. r.primary_seq) rows)
    ▹ uint32s (cells (λ r. r.secondary_seq) rows)
    ▹ booleans (cells (λ r. r.is_dirty) rows)
    ▹ timestamps (some (codes "UTC")) (cells (λ r. r.last_written) rows)
    ▹ no_arrays

module _ (N : Notatin) (A : ArrowCrate) where
  unfoldable pub process : Fields → DataType → List Cell → Outcome A.Batch
  unfolding columns
  process schema t blobs =
      conclude A schema fields (λ rows. some (columns rows)) (λ rows. some (found rows))
        (hive_info N t blobs)
