-- ===== src/Catalog/Functions/Columns.antt =====
-- The description of the result columns, crates/reghive-worker/src/table/common.rs, as JSON text.
use vgi_reghive.Base.{◌++◌, Text, codes}

abbrev key_path_column : Text
key_path_column =
    (codes "  {\"name\":\"key_path\",\"type\":\"VARCHAR\",\"description\":\"Full path "
      ++ codes "from the hive root (backslash-separated; the synthetic root key name is "
      ++ codes "stripped). Deleted orphans use a $Deleted\\\\… prefix.\"},\n")

abbrev value_name_column : Text
value_name_column =
    (codes "  {\"name\":\"value_name\",\"type\":\"VARCHAR\",\"description\":\"Value "
      ++ codes "name; NULL for the key's (Default) value and for key-only rows.\"},\n")

abbrev value_type_column : Text
value_type_column =
    (codes "  {\"name\":\"value_type\",\"type\":\"VARCHAR\",\"description\":\"REG_* "
      ++ codes "type name (REG_SZ / REG_DWORD / REG_MULTI_SZ / REG_BINARY / …), or "
      ++ codes "REG_<n> for an unrecognized code. NULL on key-only rows.\"},\n")

abbrev value_data_column : Text
value_data_column =
    (codes "  "
      ++ codes "{\"name\":\"value_data\",\"type\":\"VARCHAR\",\"description\":\"Typed/c"
      ++ codes "oerced rendering: UTF-16 for strings, ints stringified, MULTI_SZ "
      ++ codes "newline-joined, binary as lowercase hex. Lossy for binary — see "
      ++ codes "value_raw.\"},\n")

abbrev value_raw_column : Text
value_raw_column =
    (codes "  {\"name\":\"value_raw\",\"type\":\"BLOB\",\"description\":\"Exact "
      ++ codes "on-disk value bytes (lossless). The credential-bearing column for "
      ++ codes "SAM/SECURITY hives — never decoded by the worker.\"},\n")

abbrev value_dword_column : Text
value_dword_column =
    (codes "  "
      ++ codes "{\"name\":\"value_dword\",\"type\":\"BIGINT\",\"description\":\"Populated "
      ++ codes "for REG_DWORD / REG_QWORD (NULL otherwise) — saves a cast in the common "
      ++ codes "integer case.\"},\n")

abbrev key_last_write_column : Text
key_last_write_column =
    (codes "  {\"name\":\"key_last_write\",\"type\":\"TIMESTAMP WITH TIME "
      ++ codes "ZONE\",\"description\":\"Parent key's last-write FILETIME as a UTC "
      ++ codes "timestamp; repeated across that key's value rows. The primary "
      ++ codes "registry-forensics time pivot.\"},\n")

abbrev is_deleted_column : Text
is_deleted_column =
    (codes "  {\"name\":\"is_deleted\",\"type\":\"BOOLEAN\",\"description\":\"True "
      ++ codes "when the row was reconstructed from unallocated space (deleted-cell "
      ++ codes "recovery).\"},\n")

abbrev hive_type_column : Text
hive_type_column =
    (codes "  "
      ++ codes "{\"name\":\"hive_type\",\"type\":\"VARCHAR\",\"description\":\"Best-eff"
      ++ codes "ort logical hive type: SYSTEM / SOFTWARE / NTUSER / SAM / SECURITY / "
      ++ codes "USRCLASS / AMCACHE / UNKNOWN.\"},\n")

abbrev source_column : Text
source_column =
    (codes "  {\"name\":\"source\",\"type\":\"VARCHAR\",\"description\":\"Originating "
      ++ codes "file path (glob member) or '<blob>' for an in-memory hive.\"},\n")

abbrev recovery_column : Text
recovery_column =
    (codes "  {\"name\":\"recovery\",\"type\":\"VARCHAR\",\"description\":\"NULL on a "
      ++ codes "clean live cell; else dirty-no-logs, logs-applied, deleted-orphan, "
      ++ codes "deleted-reparented, or modified-prior.\"},\n")

abbrev diagnostics_column : Text
diagnostics_column =
    (codes "  {\"name\":\"diagnostics\",\"type\":\"VARCHAR\",\"description\":\"NULL "
      ++ codes "on clean decode; else truncated, bad-checksum, bad-utf16, etc.\"}\n")

abbrev pub result_columns_schema : Text
result_columns_schema =
    codes "[\n"
    ++ (key_path_column
        ++ (value_name_column
            ++ (value_type_column
                ++ (value_data_column
                    ++ (value_raw_column
                        ++ (value_dword_column
                            ++ (key_last_write_column
                                ++ (is_deleted_column
                                    ++ (hive_type_column
                                        ++ (source_column
                                            ++ (recovery_column
                                                ++ (diagnostics_column ++ (codes "]")))))))))))))
