-- ===== src/Scalar/Answers.antt =====
-- What the probes return for whole columns: one struct for each row, and neither an error nor a panic.
use vgi_reghive.Base.{◌≡◌, refl, Option, none, some, List, map, length, length-map}
use vgi_reghive.Base.{length-replicate, replicate, true}
use mathlib.Core.Option
use vgi_reghive.Arrow.{ArrowCrate, Documented, Conform, Fields, DataType, Suits-nullable}
use vgi_reghive.Arrow.{data_type, array_len, ◌⊗◌, valid_rows}
use vgi_reghive.Hive.Notatin.{Notatin, Result}
use vgi_reghive.Scalar.Io.{Cell, IsBinary, each_row-ok, blob_val_binary}
use vgi_reghive.Scalar.Answer.{Answers, IsResult, conclude-Answers, found-Answers, found}
use vgi_reghive.Scalar.Verdicts.{well_formed_total}
use vgi_reghive.Scalar.WellFormed
use vgi_reghive.Scalar.WellFormed.{WellFormedRow, well_formed_row}
use vgi_reghive.Scalar.HiveInfo
use vgi_reghive.Scalar.HiveInfo.{HiveInfoRow, hive_info, hive_info_row}
use vgi_reghive.Scalar.LogsApplied
use vgi_reghive.Scalar.LogsApplied.{LogsAppliedRow, logs_applied, logs_row, base_of, applied_row}
use vgi_reghive.Scalar.LogsApplied.{combine, summaries_of}

-- The columns of the answers fit the fields.
well_formed_columns-Conform :
    (rows : List WellFormedRow) → Conform (length rows) WellFormed.fields (WellFormed.columns rows)
unfolding WellFormed.columns data_type array_len
well_formed_columns-Conform rows =
    Suits-nullable _ refl (length-map _ rows)
    ⊗ Suits-nullable _ refl (length-map _ rows)
    ⊗ Suits-nullable _ refl (length-map _ rows)
    ⊗ Suits-nullable _ refl (length-map _ rows)
    ⊗ tt

hive_info_columns-Conform :
    (rows : List (Option HiveInfoRow))
    → Conform (length rows) HiveInfo.fields (HiveInfo.columns rows)
unfolding HiveInfo.columns data_type array_len
hive_info_columns-Conform rows =
    Suits-nullable _ refl (length-map _ rows)
    ⊗ Suits-nullable _ refl (length-map _ rows)
    ⊗ Suits-nullable _ refl (length-map _ rows)
    ⊗ Suits-nullable _ refl (length-map _ rows)
    ⊗ Suits-nullable _ refl (length-map _ rows)
    ⊗ Suits-nullable _ refl (length-map _ rows)
    ⊗ Suits-nullable _ refl (length-map _ rows)
    ⊗ Suits-nullable _ refl (length-map _ rows)
    ⊗ tt

logs_applied_columns-Conform :
    (rows : List (Option LogsAppliedRow))
    → Conform (length rows) LogsApplied.fields (LogsApplied.columns rows)
unfolding LogsApplied.columns data_type array_len
logs_applied_columns-Conform rows =
    Suits-nullable _ refl (length-map _ rows)
    ⊗ Suits-nullable _ refl (length-map _ rows)
    ⊗ Suits-nullable _ refl (length-map _ rows)
    ⊗ Suits-nullable _ refl (length-map _ rows)
    ⊗ Suits-nullable _ refl (length-map _ rows)
    ⊗ tt

module _ (N : Notatin) where
  hive_info_total :
      (t : DataType) (blobs : List Cell)
      → IsBinary t
      → hive_info N t blobs ≡ Result.ok (map (hive_info_row N) blobs)
  unfolding hive_info
  hive_info_total t blobs b =
      each_row-ok _ (hive_info_row N) blobs (λ c. rw (blob_val_binary t c b))

-- The answer to a row of a primary and two logs.
abbrev pub answer_of : Cell × Cell × Cell → Option LogsAppliedRow
answer_of row =
    Option.map (λ base. applied_row base (combine (summaries_of row.1 row.2))) (base_of row.0)

logs_row-ok :
    (t1 t2 : DataType) (base : Option _) (l1 l2 : Cell)
    → IsBinary t1
    → IsBinary t2
    → logs_row t1 t2 base l1 l2
      ≡ Result.ok (Option.map (λ b. applied_row b (combine (summaries_of l1 l2))) base)
unfolding logs_row
logs_row-ok t1 t2 none l1 l2 b1 b2 = refl
logs_row-ok t1 t2 (some base) l1 l2 b1 b2 =
    rw (blob_val_binary t1 l1 b1, blob_val_binary t2 l2 b2) refl

logs_applied_total :
    (t t1 t2 : DataType) (rows : List (Cell × Cell × Cell))
    → IsBinary t
    → IsBinary t1
    → IsBinary t2
    → logs_applied t t1 t2 rows ≡ Result.ok (map answer_of rows)
unfolding logs_applied
logs_applied_total t t1 t2 rows b b1 b2 =
    each_row-ok _ answer_of rows
      (λ row. rw (blob_val_binary t row.0 b) (logs_row-ok t1 t2 (base_of row.0) row.1 row.2 b1 b2))

module _ (N : Notatin) (A : ArrowCrate) where
  -- On a column of one of the blob types, `well_formed` returns a batch of one struct column, with a struct for each row, where the arrow crates accept columns that fit their fields and the output schema is one column of the bound type that may be null. No struct is null.
  pub well_formed-Answers :
      (schema : Fields) (t : DataType) (blobs : List Cell)
      → Documented A
      → IsResult schema WellFormed.bound_type
      → IsBinary t
      → Answers A
          (length blobs)
          WellFormed.fields
          (WellFormed.columns (map (well_formed_row N) blobs))
          (replicate (length blobs) true)
          (WellFormed.process N A schema t blobs)
  unfolding WellFormed.process valid_rows
  well_formed-Answers schema t blobs d r b =
      let rows = map (well_formed_row N) blobs in
      let n = length-map (well_formed_row N) blobs in
      rw (well_formed_total N t blobs b) (
        conclude-Answers A (length blobs) schema WellFormed.fields _ (λ l. none) rows
          (WellFormed.columns rows) d r tt refl (rw n at (well_formed_columns-Conform rows))
          (length-replicate _ true))

  -- On a column of one of the blob types, `hive_info` returns one struct for each row, null where the blob is null or has no base block.
  pub hive_info-Answers :
      (schema : Fields) (t : DataType) (blobs : List Cell)
      → Documented A
      → IsResult schema HiveInfo.bound_type
      → IsBinary t
      → let rows = map (hive_info_row N) blobs in
        Answers A
          (length blobs)
          HiveInfo.fields
          (HiveInfo.columns rows)
          (found rows)
          (HiveInfo.process N A schema t blobs)
  unfolding HiveInfo.process
  hive_info-Answers schema t blobs d r b =
      let rows = map (hive_info_row N) blobs in
      rw (hive_info_total N t blobs b) (
        found-Answers A (length blobs) schema HiveInfo.fields HiveInfo.columns rows d r tt
          (hive_info_columns-Conform rows) (length-map _ blobs))

module _ (A : ArrowCrate) where
  -- On columns of the blob types, `logs_applied` returns one struct for each row, null where the primary is null or has no base block, and else what the logs that are there say of it; where the arrow crates accept columns that fit their fields and the output schema is one column of the bound type that may be null.
  pub logs_applied-Answers :
      (schema : Fields) (t t1 t2 : DataType) (rows : List (Cell × Cell × Cell))
      → Documented A
      → IsResult schema LogsApplied.bound_type
      → IsBinary t
      → IsBinary t1
      → IsBinary t2
      → let answers = map answer_of rows in
        Answers A
          (length rows)
          LogsApplied.fields
          (LogsApplied.columns answers)
          (found answers)
          (LogsApplied.process A schema t t1 t2 rows)
  unfolding LogsApplied.process
  logs_applied-Answers schema t t1 t2 rows d r b b1 b2 =
      let answers = map answer_of rows in
      rw (logs_applied_total t t1 t2 rows b b1 b2) (
        found-Answers A (length rows) schema LogsApplied.fields LogsApplied.columns answers d r tt
          (logs_applied_columns-Conform answers) (length-map _ rows))
