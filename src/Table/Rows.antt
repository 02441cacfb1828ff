-- ===== src/Table/Rows.antt =====
-- `build_rows` of crates/reghive-worker/src/table/read_hive.rs: the rows of one source.
use vgi_reghive.Base.{Bool, true, false, Option, none, some, List, [], ◌∷◌, Bytes, Text, codes}
use vgi_reghive.Hive.{base_recovery_label}
use vgi_reghive.Hive.Notatin.{Notatin, Result, ok, err}
use vgi_reghive.Hive.Open.{OpenError, Opened, open_blob}
use vgi_reghive.Hive.Walk.{Mode, walk}
use vgi_reghive.ArrowMap.{Row}
use vgi_reghive.BaseBlock.Kinds.{WellFormedKind}

unfoldable pub hive_diag : WellFormedKind → Option Text
hive_diag WellFormedKind.bad_checksum = some (codes "bad-checksum")
hive_diag _ = none

-- `!logs.is_empty()`
unfoldable pub any_log : List Bytes → Bool
any_log [] = false
any_log (l ∷ logs) = true

module _ (N : Notatin) where
  open N use {Parser}

  unfoldable pub opened_rows : Bool → Mode → Text → Bool → Option Text → Opened Parser → List Row
  opened_rows apply_logs mode source logs_present key_filter opened =
      walk N opened source mode (base_recovery_label opened.was_dirty logs_present apply_logs)
        (hive_diag opened.kind) key_filter

  -- A hive that cannot be opened gives no rows.
  unfoldable pub rows_of :
      Bool → Mode → Text → Bool → Option Text → Result OpenError (Opened Parser) → List Row
  unfolding opened_rows
  rows_of apply_logs mode source logs_present key_filter (ok opened) =
      opened_rows apply_logs mode source logs_present key_filter opened
  rows_of apply_logs mode source logs_present key_filter (err e) = []

  unfoldable pub build_rows : Bool → Bool → Mode → Bytes → Text → List Bytes → List Row
  unfolding rows_of
  build_rows apply_logs recover mode bytes source logs =
      rows_of apply_logs mode source (any_log logs) none (open_blob N bytes apply_logs recover logs)
