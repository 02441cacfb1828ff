-- ===== src/Scalar/WellFormed.antt =====
-- `well_formed`, crates/reghive-worker/src/scalar/well_formed.rs.
use vgi_reghive.Base.{◌++◌, codes, map, true, false, Text, List, ◌∷◌, [], some, none, Bool}
use vgi_reghive.Base.{Option}
use vgi_reghive.Arrow.{DataType, ArrowCrate, Fields, Arrays, no_fields, new_field, ◌▸◌, no_arrays}
use vgi_reghive.Arrow.{◌▹◌, struct_of, utf8, binary, boolean, strings, booleans}
use vgi_reghive.Scalar.Answer.{Outcome, ArgSpec, column_typed, cells, conclude}
use vgi_reghive.Hive.Notatin.{Notatin, Result, ok, err}
use vgi_reghive.Hive.Open.{OpenError, Opened, open_blob}
use vgi_reghive.BaseBlock.{BaseBlock, parse, hive_type}
use vgi_reghive.BaseBlock.Kinds
use vgi_reghive.BaseBlock.Kinds.{WellFormedKind}
use vgi_reghive.BaseBlock.Sniff
use vgi_reghive.Scalar.Io.{RpcError, Cell, blob_val, each_row, ◌>>=◌}

unfoldable pub error_for : WellFormedKind → Option Text
error_for WellFormedKind.ok = none
error_for WellFormedKind.truncated = some (codes "blob too short to be a hive")
error_for WellFormedKind.short_base_block = some (codes "incomplete base block")
error_for WellFormedKind.bad_signature = some (codes "not a regf hive (bad signature)")
error_for WellFormedKind.not_a_hive = some (codes "regf file is not a primary hive")
error_for WellFormedKind.bad_checksum = some (codes "base-block checksum mismatch (dirty hive)")
error_for WellFormedKind.bin_size_overrun = some (codes "hive-bins size overruns the blob")

-- `k == WellFormedKind::Ok`
unfoldable pub is_ok : WellFormedKind → Bool
is_ok WellFormedKind.ok = true
is_ok _ = false

pub record WellFormedRow : Type 0 where
  pub ok : Option Bool
  pub hive_type : Option Text
  pub error : Option Text
  pub kind : Option Text

-- `.ok().map(|o| o.root_name)`
unfoldable pub root_of : {P : Type 0} → Result OpenError (Opened P) → Option Text
root_of (ok o) = some o.root_name
root_of (err e) = none

unfoldable pub type_of : Option BaseBlock → Option Text → Text
type_of none root = codes "UNKNOWN"
type_of (some bb) root = Sniff.label (hive_type bb root)

module _ (N : Notatin) where
  unfoldable pub well_formed_row : Cell → WellFormedRow
  unfolding root_of type_of error_for is_ok
  well_formed_row none = record { ok = none; hive_type = none; error = none; kind = none }
  well_formed_row (some bytes) =
      let (bb, k) = parse bytes in
      let root = root_of (open_blob N bytes false false []) in
      record {
        ok = some (is_ok k);
        hive_type = some (type_of bb root);
        error = error_for k;
        kind = some (Kinds.label k);
      }

  unfoldable pub well_formed : DataType → List Cell → Result RpcError (List WellFormedRow)
  well_formed t cells =
      each_row (λ cell. blob_val t cell >>= λ blob. ok (well_formed_row blob)) cells

-- The types of the answer and of the arguments.
abbrev pub fields : Fields
fields =
    new_field (codes "ok") boolean true
    ▸ new_field (codes "hive_type") utf8 true
    ▸ new_field (codes "error") utf8 true
    ▸ new_field (codes "kind") utf8 true
    ▸ no_fields

abbrev pub argument_specs : List ArgSpec
argument_specs =
    (column_typed (codes "blob") 0 binary (
      codes "The candidate hive contents to validate, e.g. from "
      ++ codes "read_blob('SYSTEM'). NULL yields a NULL struct; any non-hive bytes "
      ++ codes "yield ok=false with a kind tag rather than an error."))
    ∷ []

-- The type that `on_bind` answers.
abbrev pub bound_type : DataType
bound_type = struct_of fields

unfoldable pub columns : List WellFormedRow → Arrays
columns rows =
    booleans (map (λ r. r.ok) rows)
    ▹ strings (map (λ r. r.hive_type) rows)
    ▹ strings (map (λ r. r.error) rows)
    ▹ strings (map (λ r. r.kind) rows)
    ▹ no_arrays

module _ (N : Notatin) (A : ArrowCrate) where
  unfoldable pub process : Fields → DataType → List Cell → Outcome A.Batch
  unfolding columns
  process schema t blobs =
      conclude A schema fields (λ rows. some (columns rows)) (λ rows. none) (well_formed N t blobs)
