-- ===== src/Scalar/KeyAnswers.antt =====
-- What the probes for one key return for whole columns, and that they agree on the key.
use vgi_reghive.Arrow.{ArrowCrate, Documented, Conform, Fields, DataType, Array}
use vgi_reghive.Arrow.{Suits-nullable, data_type, array_len, ◌⊗◌, structs}
use vgi_reghive.Base.{◌≡◌, refl, Option, List, map, length, length-map, true}
use mathlib.Core.Option
use vgi_reghive.ArrowMap.Schema.{value_struct_fields}
use vgi_reghive.Hive.Notatin.{Notatin, Result}
use vgi_reghive.Scalar.Io.{Cell, IsBinary, IsVarchar, each_row-ok, blob_val_binary}
use vgi_reghive.Scalar.Io.{text_val_varchar}
use vgi_reghive.Scalar.Answer.{Answers, IsResult, found-Answers, found}
use vgi_reghive.Scalar.KeyInfo
use vgi_reghive.Scalar.KeyInfo.{KeyMeta, key_info, key_info_row}
use vgi_reghive.Scalar.HiveValue
use vgi_reghive.Scalar.HiveValue.{HiveValueRow, hive_value, hive_value_row}
use vgi_reghive.Scalar.HiveKey
use vgi_reghive.Scalar.HiveKey.{FoundKey, all_values, value_columns}

key_info_columns-Conform :
    (rows : List (Option KeyMeta)) → Conform (length rows) KeyInfo.fields (KeyInfo.columns rows)
unfolding KeyInfo.columns data_type array_len
key_info_columns-Conform rows =
    Suits-nullable _ refl (length-map _ rows)
    ⊗ Suits-nullable _ refl (length-map _ rows)
    ⊗ Suits-nullable _ refl (length-map _ rows)
    ⊗ Suits-nullable _ refl (length-map _ rows)
    ⊗ Suits-nullable _ refl (length-map _ rows)
    ⊗ tt

hive_value_columns-Conform :
    (rows : List (Option HiveValueRow))
    → Conform (length rows) HiveValue.fields (HiveValue.columns rows)
unfolding HiveValue.columns data_type array_len
hive_value_columns-Conform rows =
    Suits-nullable _ refl (length-map _ rows)
    ⊗ Suits-nullable _ refl (length-map _ rows)
    ⊗ Suits-nullable _ refl (length-map _ rows)
    ⊗ tt

-- The element array of `hive_key`: the values of all keys found, as structs of which none is null.
abbrev pub elements : List (Option FoundKey) → Array
elements rows =
    structs value_struct_fields (value_columns (all_values rows))
      (map (λ dv. true) (all_values rows))

module _ (N : Notatin) where
  key_info_total :
      (tb tp : DataType) (rows : List (Cell × Cell))
      → IsBinary tb
      → IsVarchar tp
      → key_info N tb tp rows ≡ Result.ok (map (λ row. key_info_row N row.0 row.1) rows)
  unfolding key_info
  key_info_total tb tp rows b v =
      each_row-ok _ _ rows
        (λ row. rw (blob_val_binary tb row.0 b, text_val_varchar tp row.1 v) refl)

  hive_value_total :
      (tb tp tn : DataType) (rows : List (Cell × Cell × Cell))
      → IsBinary tb
      → IsVarchar tp
      → IsVarchar tn
      → hive_value N tb tp tn rows
        ≡ Result.ok (map (λ row. hive_value_row N row.0 row.1 row.2) rows)
  unfolding hive_value
  hive_value_total tb tp tn rows b v w = each_row-ok _ _ rows (λ row.
      rw (text_val_varchar tn row.2 w, blob_val_binary tb row.0 b, text_val_varchar tp row.1 v)
        refl)

module _ (N : Notatin) (A : ArrowCrate) where
  -- On a column of blobs and one of paths, `key_info` returns one struct for each row, null where the blob or the path is null or the key is not found.
  pub key_info-Answers :
      (schema : Fields) (tb tp : DataType) (rows : List (Cell × Cell))
      → Documented A
      → IsResult schema KeyInfo.bound_type
      → IsBinary tb
      → IsVarchar tp
      → let keys = map (λ row. key_info_row N row.0 row.1) rows in
        Answers A
          (length rows)
          KeyInfo.fields
          (KeyInfo.columns keys)
          (found keys)
          (KeyInfo.process N A schema tb tp rows)
  unfolding KeyInfo.process
  key_info-Answers schema tb tp rows d r b v =
      let keys = map (λ row. key_info_row N row.0 row.1) rows in
      rw (key_info_total N tb tp rows b v) (
        found-Answers A (length rows) schema KeyInfo.fields KeyInfo.columns keys d r tt
          (key_info_columns-Conform keys) (length-map _ rows))

  -- The same of `hive_value`, with a column of value names, of which a null one is the empty name.
  pub hive_value-Answers :
      (schema : Fields) (tb tp tn : DataType) (rows : List (Cell × Cell × Cell))
      → Documented A
      → IsResult schema HiveValue.bound_type
      → IsBinary tb
      → IsVarchar tp
      → IsVarchar tn
      → let vals = map (λ row. hive_value_row N row.0 row.1 row.2) rows in
        Answers A
          (length rows)
          HiveValue.fields
          (HiveValue.columns vals)
          (found vals)
          (HiveValue.process N A schema tb tp tn rows)
  unfolding HiveValue.process
  hive_value-Answers schema tb tp tn rows d r b v w =
      let vals = map (λ row. hive_value_row N row.0 row.1 row.2) rows in
      rw (hive_value_total N tb tp tn rows b v w) (
        found-Answers A (length rows) schema HiveValue.fields HiveValue.columns vals d r tt
          (hive_value_columns-Conform vals) (length-map _ rows))
