-- ===== src/Hive/Notatin.antt =====
-- What the worker uses of the `notatin` crate, which is not part of this repository: its parser is a
-- parameter of the model, with the cells as the parser hands them over.
use vgi_reghive.Base.{ℕ, Bool, Option, List, Bytes, Text}
use vgi_reghive.Base.Int.{ℤ}

-- A value cell: `value_bytes`, `data_type_raw`, `value_name` and the state of the cell.
pub record CellValue : Type 0 where
  pub bytes : Option Bytes
  pub type_raw : ℕ
  pub name : Text
  pub deleted : Bool

-- A key cell: its full path, state, time in microseconds, values and the counts that it stores;
-- `get_value` is the crate's search among its values.
pub record CellKey : Type 0 where
  pub path : Text
  pub deleted : Bool
  pub last_write : ℤ
  pub values : List CellValue
  pub subkey_count : ℕ
  pub value_count : ℕ
  pub get_value : Text → Option CellValue

pub data Result (E A : Type 0) : Type 0 where
  ok : A → Result E A
  err : E → Result E A

-- `build` takes the bytes, `recover_deleted` and the logs, and fails with a message;
-- `root_key_name` is `none` where the root key cannot be read; `keys` is the iteration with
-- modified items; `get_key` finds a key by its path.
pub record Notatin : Type 1 where
  pub Parser : Type 0
  pub build : Bytes → Bool → List Bytes → Result Text Parser
  pub root_key_name : Parser → Option Text
  pub keys : Parser → List CellKey
  pub get_key : Parser → Text → Option CellKey
