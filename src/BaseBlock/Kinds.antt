-- ===== src/BaseBlock/Kinds.antt =====
-- `WellFormedKind` of crates/reghive-core/src/baseblock.rs.
use vgi_reghive.Base.{Text, codes}

pub data WellFormedKind : Type 0 where
  ok truncated short_base_block bad_signature not_a_hive bad_checksum : WellFormedKind
  bin_size_overrun : WellFormedKind

unfoldable pub label : WellFormedKind → Text
label ok = codes "ok"
label truncated = codes "truncated"
label short_base_block = codes "short-base-block"
label bad_signature = codes "bad-signature"
label not_a_hive = codes "not-a-hive"
label bad_checksum = codes "bad-checksum"
label bin_size_overrun = codes "bin-size-overrun"
