-- ===== src/Scalar/Answer.antt =====
-- The end of each probe's `process`, crates/reghive-worker/src/scalar: the columns of the answers become
-- one struct array, the only column of the batch that is returned.
use vgi_reghive.Base.{ℕ, ◌≡◌, refl, Bool, true, false, Option, none, some, List, [], ◌∷◌, map}
use vgi_reghive.Base.{length, length-map, Text, ◌∙◌}
use vgi_reghive.Base
use mathlib.Core.Option
use vgi_reghive.Hive.Notatin.{Result, ok, err}
use vgi_reghive.Arrow.{ArrowCrate, Documented, Conform, HasField, Fields, no_fields, field, ◌▸◌}
use vgi_reghive.Arrow.{DataType, struct_of, Array, Arrays, no_arrays, ◌▹◌, structs, valid_rows}
use vgi_reghive.Arrow.{Suits-nullable, data_type, array_len, ◌⊗◌}
use vgi_reghive.Scalar.Io.{RpcError}
use vgi_reghive.ArrowMap.Finish.{or_runtime_error}

-- An argument: its name, position, type and description.
pub data ArgSpec : Type 0 where
  column_typed : Text → ℕ → DataType → Text → ArgSpec

-- What `process` comes to.
pub data Outcome (B : Type 0) : Type 0 where
  returned : B → Outcome B
  failed : RpcError → Outcome B
  panicked : Outcome B

-- `append_value` of a field of each answer, `append_null` where there is none.
abbrev pub cells : {R B : Type 0} → (R → B) → List (Option R) → List (Option B)
cells f rows = map (Option.map f) rows

-- The same for a field that may be null itself.
abbrev pub nullable_cells : {R B : Type 0} → (R → Option B) → List (Option R) → List (Option B)
nullable_cells f rows = map (λ o. Base.◌>>=◌ o f) rows

abbrev pub is_found : {R : Type 0} → Option R → Bool
is_found none = false
is_found (some r) = true

-- `valid`, the null buffer: the rows that have an answer.
abbrev pub found : {R : Type 0} → List (Option R) → List Bool
found rows = map is_found rows

module _ (A : ArrowCrate) where
  outcome_of : Result RpcError A.Batch → Outcome A.Batch
  outcome_of (ok b) = returned b
  outcome_of (err e) = failed e

  -- `RecordBatch::try_new(params.output_schema.clone(), vec![out])`
  unfoldable pub batch_of : Fields → Option Array → Outcome A.Batch
  unfolding outcome_of
  batch_of schema none = panicked
  batch_of schema (some out) = outcome_of (or_runtime_error (A.try_new schema (out ▹ no_arrays)))

  -- `StructArray::new(fields(), arrays, nulls)`, unless a builder has panicked.
  unfoldable pub struct_batch :
      Fields → Fields → Option Arrays → Option (List Bool) → Outcome A.Batch
  struct_batch schema fs none nulls = panicked
  struct_batch schema fs (some cs) nulls = batch_of schema (A.struct_new fs cs nulls)

  -- The first error in a row ends `process`.
  unfoldable pub conclude :
      {R : Type 0}
      → Fields
      → Fields
      → (List R → Option Arrays)
      → (List R → Option (List Bool))
      → Result RpcError (List R)
      → Outcome A.Batch
  unfolding struct_batch
  conclude schema fs columns_of nulls_of (err e) = failed e
  conclude schema fs columns_of nulls_of (ok rows) =
      struct_batch schema fs (columns_of rows) (nulls_of rows)

  -- A batch of `n` rows whose only column is a struct of these columns.
  abbrev pub Answers : ℕ → Fields → Arrays → List Bool → Outcome A.Batch → Type 0
  Answers n fs cs valid o =
      (b : A.Batch) × (o ≡ returned b)
      × (A.columns b ≡ structs fs cs valid ▹ no_arrays)
      × (A.num_rows b ≡ n)

-- The output schema that the caller makes of the type bound by `on_bind`: one column of that type
-- that may be null.
abbrev pub IsResult : Fields → DataType → Type 0
IsResult schema t =
    (name : Text) × (metadata : List (Text × Text)) × (schema
      ≡ field name t true metadata ▸ no_fields)

module _ (A : ArrowCrate) where
  batch_of-Answers :
      (n : ℕ) (schema fs : Fields) (cs : Arrays) (valid : List Bool)
      → Documented A
      → IsResult schema (struct_of fs)
      → length valid ≡ n
      → Answers A n fs cs valid (batch_of A schema (some (structs fs cs valid)))
  unfolding batch_of or_runtime_error
  batch_of-Answers n schema fs cs valid d (name, metadata, e) l =
      let (b, made, cols, rows) =
        d.try_new_fits n (field name (struct_of fs) true metadata ▸ no_fields)
          (structs fs cs valid ▹ no_arrays) tt
          (unfold data_type array_len in Suits-nullable (structs fs cs valid) refl l ⊗ tt) in
      (b, rw (e, made) refl, cols, rows)

  pub conclude-Answers :
      {R : Type 0} (n : ℕ) (schema fs : Fields) (columns_of : List R → Option Arrays)
      (nulls_of : List R → Option (List Bool)) (rows : List R) (cs : Arrays)
      → Documented A
      → IsResult schema (struct_of fs)
      → HasField fs
      → columns_of rows ≡ some cs
      → Conform n fs cs
      → length (valid_rows n (nulls_of rows)) ≡ n
      → Answers A n fs cs
          (valid_rows n (nulls_of rows))
          (conclude A schema fs columns_of nulls_of (ok rows))
  unfolding conclude struct_batch
  conclude-Answers n schema fs columns_of nulls_of rows cs d r some_field e c l =
      rw (e, d.struct_new_fits n fs cs (nulls_of rows) some_field c l)
        (batch_of-Answers n schema fs cs (valid_rows n (nulls_of rows)) d r l)

  -- A probe whose struct is null in the rows that have no answer.
  pub found-Answers :
      {R : Type 0} (n : ℕ) (schema fs : Fields) (columns : List (Option R) → Arrays)
      (rows : List (Option R))
      → Documented A
      → IsResult schema (struct_of fs)
      → HasField fs
      → Conform (length rows) fs (columns rows)
      → length rows ≡ n
      → Answers A n fs
          (columns rows)
          (found rows)
          (conclude A schema fs (λ l. some (columns l)) (λ l. some (found l)) (ok rows))
  unfolding valid_rows
  found-Answers n schema fs columns rows d r some_field c l =
      conclude-Answers n schema fs _ _ rows (columns rows) d r some_field refl (rw l at c)
        (length-map _ rows ∙ l)
