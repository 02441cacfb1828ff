-- ===== src/ArrowMap/Schema.antt =====
-- The schema of the rows with the comment of each column, and the fields of a value's struct, of
-- crates/reghive-worker/src/arrow_map.rs.
use vgi_reghive.Base.{Bool, true, false, some, [], ◌∷◌, ◌++◌, Text, codes}
use vgi_reghive.Arrow.{DataType, Field, Fields, utf8, binary, boolean, int64, timestamp, field}
use vgi_reghive.Arrow.{new_field, no_fields, ◌▸◌}

abbrev pub timestamptz : DataType
timestamptz = timestamp (some (codes "UTC"))

abbrev commented : Text → DataType → Bool → Text → Field
commented name t nullable comment = field name t nullable ((codes "comment", comment) ∷ [])

abbrev key_path_field : Field
key_path_field = commented (codes "key_path") utf8 false (
    codes "Full path from the hive root (backslash-separated; the synthetic root "
    ++ codes "key name is stripped, no synthetic HKLM mount). Deleted orphans use a "
    ++ codes "`$Deleted\\…` prefix.")

abbrev value_name_field : Field
value_name_field =
    commented (codes "value_name") utf8 true
      (codes "Value name; NULL for the key's (Default) value and for key-only rows.")

abbrev value_type_field : Field
value_type_field = commented (codes "value_type") utf8 true (
    codes "REG_* type name, e.g. REG_SZ / REG_DWORD / REG_MULTI_SZ / REG_BINARY, "
    ++ codes "or REG_<n> for an unrecognized code. NULL on key-only rows.")

abbrev value_data_field : Field
value_data_field = commented (codes "value_data") utf8 true (
    codes "Typed/coerced rendering: UTF-16 decoded for strings, ints stringified,"
    ++ codes " MULTI_SZ joined with newlines, binary as lowercase hex. Lossy for "
    ++ codes "binary — see value_raw.")

abbrev value_raw_field : Field
value_raw_field = commented (codes "value_raw") binary true (
    codes "The exact on-disk value bytes (lossless). The credential-bearing "
    ++ codes "column for SAM / SECURITY hives — never decoded by the worker; pair "
    ++ codes "with vgi-mask to redact.")

abbrev value_dword_field : Field
value_dword_field = commented (codes "value_dword") int64 true (
    codes "Populated for REG_DWORD / REG_QWORD (NULL otherwise) — saves a cast in"
    ++ codes " the common integer case.")

abbrev key_last_write_field : Field
key_last_write_field = commented (codes "key_last_write") timestamptz true (
    codes "Parent key's last-write FILETIME as a UTC timestamp; repeated across "
    ++ codes "that key's value rows. The primary registry-forensics time pivot.")

abbrev is_deleted_field : Field
is_deleted_field = commented (codes "is_deleted") boolean false (
    codes "True when the row was reconstructed from unallocated space "
    ++ codes "(deleted-cell recovery).")

abbrev hive_type_field : Field
hive_type_field = commented (codes "hive_type") utf8 true (
    codes "Best-effort logical hive type: SYSTEM / SOFTWARE / NTUSER / SAM / "
    ++ codes "SECURITY / USRCLASS / AMCACHE / UNKNOWN.")

abbrev source_field : Field
source_field =
    commented (codes "source") utf8 true
      (codes "Originating file path (glob member) or '<blob>' for an in-memory hive.")

abbrev recovery_field : Field
recovery_field = commented (codes "recovery") utf8 true (
    codes "NULL on a clean live cell; else dirty-no-logs, logs-applied, "
    ++ codes "deleted-orphan, deleted-reparented, or modified-prior.")

abbrev diagnostics_field : Field
diagnostics_field =
    commented (codes "diagnostics") utf8 true
      (codes "NULL on clean decode; else truncated, bad-checksum, bad-utf16, etc.")

abbrev pub row_schema : Fields
row_schema =
    key_path_field ▸ value_name_field ▸ value_type_field ▸ value_data_field ▸ value_raw_field
    ▸ value_dword_field ▸ key_last_write_field ▸ is_deleted_field ▸ hive_type_field ▸ source_field
    ▸ recovery_field ▸ diagnostics_field ▸ no_fields

abbrev pub value_struct_fields : Fields
value_struct_fields =
    new_field (codes "value_name") utf8 true
    ▸ new_field (codes "value_type") utf8 true
    ▸ new_field (codes "value_data") utf8 true
    ▸ new_field (codes "value_raw") binary true
    ▸ no_fields
