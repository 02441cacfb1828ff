-- ===== src/Hive.antt =====
-- crates/reghive-worker/src/hive: opening a hive, decoding values, and walking the keys into rows.
pub mod Notatin
pub mod Open
pub mod Value
pub mod Walk
pub mod Gate
use vgi_reghive.Base.{ℕ, zero, suc, ◌+◌, ◌-◌, ◌*◌, ◌/◌, ◌%◌, ◌^◌, ◌≤◌, ◌<◌, min, max, ◌≡◌, refl}
use vgi_reghive.Base.{sym, ap, ◌∙◌, ◌≢◌, ◌↔◌, ◌⊎◌, inl, inr, Bool, true, false, not, ◌&&◌, ◌||◌}
use vgi_reghive.Base.{Option, none, some, List, [], ◌∷◌, ◌++◌, map, append-nil, append_assoc}
use vgi_reghive.Base.{arith, ltb, leb, ◌==◌, if◌then◌else◌, leb→le, le→leb, lt→leb, ltb→lt}
use vgi_reghive.Base.{lt→ltb, le→ltb, ==_iff, Bool-cases, Option-cases, unwrap_or, ◌>>=◌, length}
use vgi_reghive.Base.{take, drop, replicate, All, All-append, All-take, All-drop, slice}
use vgi_reghive.Base.{slice_within, slice_beyond, slice-append, slice-append_skip}
use vgi_reghive.Base.{slice-append_at, length-append, length-take, length-drop, length-replicate}
use vgi_reghive.Base.{take-append, drop-append, take-append_within, take-drop-append, drop-add}
use vgi_reghive.Base.{Bytes, IsByte, Text, codes}

-- `base_recovery_label` of hive/mod.rs: the label of live cells.
unfoldable pub base_recovery_label : Bool → Bool → Bool → Option Text
base_recovery_label was_dirty logs_present apply_logs =
    if not was_dirty
    then none
    else if apply_logs && logs_present
    then some (codes "logs-applied")
    else some (codes "dirty-no-logs")
