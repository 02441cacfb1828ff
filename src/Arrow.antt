-- ===== src/Arrow.antt =====
-- What the worker uses of the `arrow` crates, which are not part of this repository: data types,
-- fields, arrays as lists of cells, and the two constructors that check their arguments as parameters.
use vgi_reghive.Base.{ℕ, ◌≡◌, ◌⊎◌, Bool, true, false, Option, none, some, List, [], ◌∷◌, Text}
use vgi_reghive.Base.{Bytes, length, codes, replicate, inl, inr, refl}
use vgi_reghive.Base.Int.{ℤ}
use vgi_reghive.Hive.Notatin.{Result, ok}

infixr 5 ◌▸◌ ◌▹◌ ◌⊗◌
-- A timestamp counts microseconds and may have a time zone; a field has a name, a type, whether it
-- may be null, and its metadata.
mutual
  pub data DataType : Type 0 where
    binary large_binary binary_view utf8 large_utf8 utf8_view : DataType
    boolean int64 uint16 uint32 : DataType
    timestamp : Option Text → DataType
    list : Field → DataType
    struct_of : Fields → DataType
    other : Text → DataType

  pub data Field : Type 0 where
    field : Text → DataType → Bool → List (Text × Text) → Field

  pub data Fields : Type 0 where
    no_fields : Fields
    ◌▸◌ : Field → Fields → Fields

-- `Field::new`
abbrev pub new_field : Text → DataType → Bool → Field
new_field name t nullable = field name t nullable []

-- A struct array has its fields, its children and the rows that are valid; a list array has the
-- elements of all rows in one array, and for each row how many of them are its own.
mutual
  pub data Array : Type 0 where
    strings : List (Option Text) → Array
    binaries : List (Option Bytes) → Array
    booleans : List (Option Bool) → Array
    int64s : List (Option ℤ) → Array
    uint16s uint32s : List (Option ℕ) → Array
    timestamps : Option Text → List (Option ℤ) → Array
    structs : Fields → Arrays → List Bool → Array
    lists : Array → List (Option ℕ) → Array

  pub data Arrays : Type 0 where
    no_arrays : Arrays
    ◌▹◌ : Array → Arrays → Arrays

-- `ListBuilder` calls the elements `item`.
unfoldable pub data_type : Array → DataType
data_type (strings cells) = utf8
data_type (binaries cells) = binary
data_type (booleans cells) = boolean
data_type (int64s cells) = int64
data_type (uint16s cells) = uint16
data_type (uint32s cells) = uint32
data_type (timestamps tz cells) = timestamp tz
data_type (structs fs children valid) = struct_of fs
data_type (lists elements sizes) = list (new_field (codes "item") (data_type elements) true)

unfoldable pub array_len : Array → ℕ
array_len (strings cells) = length cells
array_len (binaries cells) = length cells
array_len (booleans cells) = length cells
array_len (int64s cells) = length cells
array_len (uint16s cells) = length cells
array_len (uint32s cells) = length cells
array_len (timestamps tz cells) = length cells
array_len (structs fs children valid) = length valid
array_len (lists elements sizes) = length sizes

abbrev pub any_none : {A : Type 0} → List (Option A) → Bool
any_none [] = false
any_none (none ∷ cells) = true
any_none (some c ∷ cells) = any_none cells

abbrev pub any_false : List Bool → Bool
any_false [] = false
any_false (false ∷ bs) = true
any_false (true ∷ bs) = any_false bs

unfoldable pub has_null : Array → Bool
has_null (strings cells) = any_none cells
has_null (binaries cells) = any_none cells
has_null (booleans cells) = any_none cells
has_null (int64s cells) = any_none cells
has_null (uint16s cells) = any_none cells
has_null (uint32s cells) = any_none cells
has_null (timestamps tz cells) = any_none cells
has_null (structs fs children valid) = any_false valid
has_null (lists elements sizes) = any_none sizes

-- An array of `n` rows of the field's type, with no null where the field may not be null.
pub record Suits (n : ℕ) (t : DataType) (nullable : Bool) (a : Array) : Type 0 where
  pub same_type : data_type a ≡ t
  pub same_len : array_len a ≡ n
  pub null_free : (nullable ≡ true) ⊎ (has_null a ≡ false)

-- Two proofs at once.
abbrev pub ◌⊗◌ : {P Q : Type 0} → P → Q → P × Q
p ⊗ q = (p, q)

-- One array for each field, all of `n` rows.
abbrev pub Conform : ℕ → Fields → Arrays → Type 0
Conform n no_fields no_arrays = Unit
Conform n no_fields (a ▹ cs) = ⊥
Conform n (f ▸ fs) no_arrays = ⊥
Conform n (field name t nullable metadata ▸ fs) (a ▹ cs) = Suits n t nullable a × Conform n fs cs

-- `StructArray::new`, which panics (`none`) where the children do not fit the fields; the `finish` of
-- a `StructBuilder`, from the flags given to its `append`; `RecordBatch::try_new` with the fields of
-- a schema.
pub record ArrowCrate : Type 1 where
  pub Batch : Type 0
  pub columns : Batch → Arrays
  pub num_rows : Batch → ℕ
  pub struct_new : Fields → Arrays → Option (List Bool) → Option Array
  pub struct_finish : Fields → Arrays → List Bool → Option Array
  pub try_new : Fields → Arrays → Result Text Batch

unfoldable pub valid_rows : ℕ → Option (List Bool) → List Bool
valid_rows n none = replicate n true
valid_rows n (some valid) = valid

abbrev pub HasField : Fields → Type 0
HasField no_fields = ⊥
HasField (f ▸ fs) = Unit

-- Documented of the crates: children that fit the fields, of which there is one at least, make a
-- struct or a batch that holds them.
pub record Documented (A : ArrowCrate) : Type 0 where
  pub struct_new_fits :
      (n : ℕ) (fs : Fields) (cs : Arrays) (nulls : Option (List Bool))
      → HasField fs
      → Conform n fs cs
      → length (valid_rows n nulls) ≡ n
      → A.struct_new fs cs nulls ≡ some (structs fs cs (valid_rows n nulls))
  pub struct_finish_fits :
      (fs : Fields) (cs : Arrays) (valid : List Bool)
      → HasField fs
      → Conform (length valid) fs cs
      → A.struct_finish fs cs valid ≡ some (structs fs cs valid)
  pub try_new_fits :
      (n : ℕ) (fs : Fields) (cs : Arrays)
      → HasField fs
      → Conform n fs cs
      → (b : A.Batch) × (A.try_new fs cs ≡ ok b) × (A.columns b ≡ cs) × (A.num_rows b ≡ n)

-- Arrays that suit a field.
pub Suits-nullable :
    {n : ℕ} {t : DataType} (a : Array) → data_type a ≡ t → array_len a ≡ n → Suits n t true a
Suits-nullable a t n = record { same_type = t; same_len = n; null_free = inl refl }

pub Suits-null_free :
    {n : ℕ} {t : DataType} (a : Array)
    → data_type a ≡ t
    → array_len a ≡ n
    → has_null a ≡ false
    → Suits n t false a
Suits-null_free a t n h = record { same_type = t; same_len = n; null_free = inr h }
