-- ===== src/ArrowMap/Finish.antt =====
-- `finish` of the batch builder, crates/reghive-worker/src/arrow_map.rs: the columns as arrays, in the
-- order of the schema.
use vgi_reghive.Base.{◌≡◌, refl, ◌∙◌, false, some, List, [], ◌∷◌, map, length, length-map, Option}
use vgi_reghive.Base.{Text, codes}
use vgi_reghive.Hive.Notatin.{Result, ok, err}
use vgi_reghive.Arrow.{any_none, ArrowCrate, Documented, Conform, Fields, Arrays, no_arrays, ◌▹◌}
use vgi_reghive.Arrow.{◌⊗◌, Suits-nullable, Suits-null_free, strings, binaries, booleans, int64s}
use vgi_reghive.Arrow.{timestamps, data_type, array_len, has_null}
use vgi_reghive.ArrowMap.{Row, RowBatchBuilder, HoldsRows, push_all, empty_builder, push_all-rows}
use vgi_reghive.ArrowMap.Schema.{row_schema}
use vgi_reghive.Scalar.Io.{RpcError, runtime_error}

-- The finished columns; a column that is filled by `append_value` has no null.
unfoldable pub finished_columns : RowBatchBuilder → Arrays
finished_columns b =
    strings (map some b.key_path)
    ▹ strings b.value_name
    ▹ strings b.value_type
    ▹ strings b.value_data
    ▹ binaries b.value_raw
    ▹ int64s b.value_dword
    ▹ timestamps (some (codes "UTC")) b.key_last_write
    ▹ booleans (map some b.is_deleted)
    ▹ strings (map some b.hive_type)
    ▹ strings (map some b.source)
    ▹ strings b.recovery
    ▹ strings b.diagnostics
    ▹ no_arrays

-- `.map_err(|e| RpcError::runtime_error(e.to_string()))`
unfoldable pub or_runtime_error : {B : Type 0} → Result Text B → Result RpcError B
or_runtime_error (ok b) = ok b
or_runtime_error (err message) = err (runtime_error message)

module _ (A : ArrowCrate) where
  -- The schema of the builder is an argument.
  unfoldable pub finish : Fields → RowBatchBuilder → Result RpcError A.Batch
  unfolding finished_columns or_runtime_error
  finish schema b = or_runtime_error (A.try_new schema (finished_columns b))

-- A field of the rows as the cells of a column: one that is always there, and one that may be null.
abbrev each : {B : Type 0} → (Row → B) → List Row → List (Option B)
each f rows = map some (map f rows)

abbrev pub row_columns : List Row → Arrays
row_columns rows =
    strings (each (λ r. r.key_path) rows)
    ▹ strings (map (λ r. r.value_name) rows)
    ▹ strings (map (λ r. r.value_type) rows)
    ▹ strings (map (λ r. r.value_data) rows)
    ▹ binaries (map (λ r. r.value_raw) rows)
    ▹ int64s (map (λ r. r.value_dword) rows)
    ▹ timestamps (some (codes "UTC")) (map (λ r. r.key_last_write) rows)
    ▹ booleans (each (λ r. r.is_deleted) rows)
    ▹ strings (each (λ r. r.hive_type) rows)
    ▹ strings (each (λ r. r.source) rows)
    ▹ strings (map (λ r. r.recovery) rows)
    ▹ strings (map (λ r. r.diagnostics) rows)
    ▹ no_arrays

each_null_free : {B : Type 0} (f : Row → B) (rows : List Row) → any_none (each f rows) ≡ false
each_null_free f [] = refl
each_null_free f (r ∷ rows) = each_null_free f rows

length-each : {B : Type 0} (f : Row → B) (rows : List Row) → length (each f rows) ≡ length rows
length-each f rows = length-map some (map f rows) ∙ length-map f rows

finished_columns-rows :
    (b : RowBatchBuilder) (rows : List Row)
    → HoldsRows b rows
    → finished_columns b ≡ row_columns rows
unfolding finished_columns
finished_columns-rows b rows h =
    rw
      (
        h.key_path, h.value_name, h.value_type, h.value_data, h.value_raw, h.value_dword,
        h.key_last_write, h.is_deleted, h.hive_type, h.source, h.recovery, h.diagnostics,
      )
      refl

row_columns-Conform : (rows : List Row) → Conform (length rows) row_schema (row_columns rows)
unfolding data_type array_len has_null
row_columns-Conform rows =
    Suits-null_free _ refl (length-each _ rows) (each_null_free _ rows)
    ⊗ Suits-nullable _ refl (length-map _ rows)
    ⊗ Suits-nullable _ refl (length-map _ rows)
    ⊗ Suits-nullable _ refl (length-map _ rows)
    ⊗ Suits-nullable _ refl (length-map _ rows)
    ⊗ Suits-nullable _ refl (length-map _ rows)
    ⊗ Suits-nullable _ refl (length-map _ rows)
    ⊗ Suits-null_free _ refl (length-each _ rows) (each_null_free _ rows)
    ⊗ Suits-nullable _ refl (length-each _ rows)
    ⊗ Suits-nullable _ refl (length-each _ rows)
    ⊗ Suits-nullable _ refl (length-map _ rows)
    ⊗ Suits-nullable _ refl (length-map _ rows)
    ⊗ tt

module _ (A : ArrowCrate) where
  -- With the schema of the rows, a batch that was filled with rows always finishes, where the arrow crates accept columns that fit a schema: its columns are the fields of the rows, one cell for each row, in the order of the schema, and it has as many rows as were pushed.
  pub finish-rows :
      (rows : List Row)
      → Documented A
      → (b : A.Batch) × (finish A row_schema (push_all empty_builder rows) ≡ ok b)
        × (A.columns b ≡ row_columns rows)
        × (A.num_rows b ≡ length rows)
  unfolding finish or_runtime_error
  finish-rows rows d =
      let (b, made, cols, n) =
        d.try_new_fits (length rows) row_schema (row_columns rows) tt (row_columns-Conform rows) in
      (b, rw (finished_columns-rows _ rows (push_all-rows rows).0, made) refl, cols, n)
