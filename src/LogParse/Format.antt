-- ===== src/LogParse/Format.antt =====
-- `LogFormat` of crates/reghive-core/src/logparse.rs; `absent` is its `None`.
use vgi_reghive.Base.{Text, codes}

pub data LogFormat : Type 0 where
  absent old new : LogFormat

unfoldable pub label : LogFormat → Text
label absent = codes "none"
label old = codes "old"
label new = codes "new"
