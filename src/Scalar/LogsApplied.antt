-- ===== src/Scalar/LogsApplied.antt =====
-- `logs_applied`, crates/reghive-worker/src/scalar/logs_applied.rs.
pub mod Laws
use vgi_reghive.Base.{◌++◌, codes, map, true, false, length, Text, List, ◌∷◌, [], some, none}
use vgi_reghive.Base.{Bool, ℕ, max, not, ◌&&◌, ◌||◌, Option, leb, if◌then◌else◌}
use vgi_reghive.Base
use vgi_reghive.Arrow.{DataType, ArrowCrate, Fields, Field, Array, Arrays, no_fields, new_field}
use vgi_reghive.Arrow.{◌▸◌, no_arrays, ◌▹◌, struct_of, list, utf8, binary, boolean, uint16}
use vgi_reghive.Arrow.{uint32, strings, binaries, booleans, uint16s, uint32s, timestamps, structs}
use vgi_reghive.Arrow.{lists}
use vgi_reghive.ArrowMap.Schema.{timestamptz, value_struct_fields}
use vgi_reghive.Scalar.Answer.{Outcome, ArgSpec, column_typed, cells, nullable_cells, found}
use vgi_reghive.Scalar.Answer.{conclude}
use vgi_reghive.Base.Words.{sat_add32}
use vgi_reghive.Base.Strings.{text_eq}
use vgi_reghive.Hive.Notatin.{Result, ok}
use vgi_reghive.BaseBlock.{BaseBlock, parse, is_dirty}
use vgi_reghive.LogParse.{LogSummary, summarize}
use vgi_reghive.Scalar.Io.{RpcError, Cell, blob_val, each_row, ◌>>=◌}

-- The entries, dirty pages, highest sequence number and format of the logs together.
pub record Combined : Type 0 where
  pub entries : ℕ
  pub dirty : ℕ
  pub max_seq : ℕ
  pub fmt : Text

unfoldable pub combine_format : Text → Text → Text
combine_format label fmt =
    if text_eq label (codes "new")
    then codes "new"
    else if text_eq label (codes "old") && not (text_eq fmt (codes "new"))
    then codes "old"
    else fmt

unfoldable pub combine_step : Combined → LogSummary → Combined
unfolding combine_format
combine_step c s = record {
  entries = sat_add32 c.entries s.entries;
  dirty = sat_add32 c.dirty s.dirty_pages;
  max_seq = max c.max_seq s.max_sequence;
  fmt = combine_format s.format_label c.fmt;
}

combine_from : Combined → List LogSummary → Combined
combine_from c [] = c
combine_from c (s ∷ logs) = combine_from (combine_step c s) logs

unfoldable pub combine : List LogSummary → Combined
unfolding combine_from combine_step
combine logs =
    combine_from (record { entries = 0; dirty = 0; max_seq = 0; fmt = codes "none" }) logs

pub record LogsAppliedRow : Type 0 where
  pub applied : Bool
  pub entries_replayed : ℕ
  pub dirty_pages : ℕ
  pub became_clean : Bool
  pub log_format : Text

unfoldable pub summaries_of : Cell → Cell → List LogSummary
summaries_of (some l1) (some l2) = summarize l1 ∷ summarize l2 ∷ []
summaries_of (some l1) none = summarize l1 ∷ []
summaries_of none (some l2) = summarize l2 ∷ []
summaries_of none none = []

unfoldable pub applied_row : BaseBlock → Combined → LogsAppliedRow
applied_row base c =
    let did_apply = is_dirty base && not (text_eq c.fmt (codes "none")) in
    record {
      applied = did_apply;
      entries_replayed = c.entries;
      dirty_pages = c.dirty;
      became_clean =
          did_apply
          && (text_eq c.fmt (codes "old")
              || leb (max base.primary_seq base.secondary_seq) c.max_seq);
      log_format = c.fmt;
    }

-- A null struct where the primary has no base block; then the logs are not read.
unfoldable pub logs_row :
    DataType → DataType → Option BaseBlock → Cell → Cell → Result RpcError (Option LogsAppliedRow)
logs_row t1 t2 none log1 log2 = ok none
logs_row t1 t2 (some base) log1 log2 = do
  l1 ← blob_val t1 log1
  l2 ← blob_val t2 log2
  ok (some (applied_row base (combine (summaries_of l1 l2))))

unfoldable pub base_of : Cell → Option BaseBlock
base_of none = none
base_of (some blob) = (parse blob).0

-- Each row has a primary and two logs.
unfoldable pub logs_applied :
    DataType
    → DataType
    → DataType
    → List (Cell × Cell × Cell)
    → Result RpcError (List (Option LogsAppliedRow))
unfolding logs_row base_of
logs_applied t t1 t2 rows =
    each_row (λ row. blob_val t row.0 >>= λ p. logs_row t1 t2 (base_of p) row.1 row.2) rows

-- The types of the answer and of the arguments.
abbrev pub fields : Fields
fields =
    new_field (codes "applied") boolean true
    ▸ new_field (codes "entries_replayed") uint32 true
    ▸ new_field (codes "dirty_pages") uint32 true
    ▸ new_field (codes "became_clean") boolean true
    ▸ new_field (codes "log_format") utf8 true
    ▸ no_fields

abbrev pub argument_specs : List ArgSpec
argument_specs =
    (column_typed (codes "blob") 0 binary (
      codes "The dirty primary hive contents, captured before transaction-log " ++ codes "replay."))
    ∷ (column_typed (codes "log1") 1 binary
        (codes "The first transaction log (.LOG1) bytes, or NULL if not available."))
    ∷ (column_typed (codes "log2") 2 binary
        (codes "The second transaction log (.LOG2) bytes, or NULL if not available."))
    ∷ []

-- The type that `on_bind` answers.
abbrev pub bound_type : DataType
bound_type = struct_of fields

unfoldable pub columns : List (Option LogsAppliedRow) → Arrays
columns rows =
    booleans (cells (λ r. r.applied) rows)
    ▹ uint32s (cells (λ r. r.entries_replayed) rows)
    ▹ uint32s (cells (λ r. r.dirty_pages) rows)
    ▹ booleans (cells (λ r. r.became_clean) rows)
    ▹ strings (cells (λ r. r.log_format) rows)
    ▹ no_arrays

module _ (A : ArrowCrate) where
  unfoldable pub process :
      Fields → DataType → DataType → DataType → List (Cell × Cell × Cell) → Outcome A.Batch
  unfolding columns
  process schema t t1 t2 rows =
      conclude A schema fields (λ rows. some (columns rows)) (λ rows. some (found rows))
        (logs_applied t t1 t2 rows)
