-- ===== src/Hive/Value.antt =====
-- `decode` of crates/reghive-worker/src/hive/value.rs.
use vgi_reghive.Base.{Option, none, some, [], ◌∷◌, unwrap_or, Bytes, Text}
use vgi_reghive.Hive.Notatin.{CellValue}
use vgi_reghive.Base.Int.{ℤ}
use vgi_reghive.ValueType.{coerce, type_name}

pub record DecodedValue : Type 0 where
  pub name : Option Text
  pub value_type : Text
  pub value_data : Text
  pub value_raw : Bytes
  pub value_dword : Option ℤ
  pub diagnostics : Option Text

unfoldable pub name_of : Text → Option Text
name_of [] = none
name_of (c ∷ n) = some (c ∷ n)

unfoldable pub decode : CellValue → DecodedValue
unfolding name_of
decode val =
    let raw = unwrap_or val.bytes [] in
    let coerced = coerce val.type_raw raw in
    record {
      name = name_of val.name;
      value_type = type_name val.type_raw;
      value_data = coerced.value_data;
      value_raw = raw;
      value_dword = coerced.value_dword;
      diagnostics = coerced.diagnostics;
    }
