-- ===== src/BaseBlock/Sniff.antt =====
-- `HiveType` of crates/reghive-core/src/baseblock.rs and the sniffer `BaseBlock::hive_type`, here
-- over the embedded file name.
use vgi_reghive.Base.{Text, codes, Option, ◌++◌, ◌||◌, if◌then◌else◌, unwrap_or, [], ◌∷◌}
use vgi_reghive.Base.Strings.{text_eq, contains, ends_with, to_lower}

pub data HiveType : Type 0 where
  system software ntuser sam security usr_class amcache unknown : HiveType

unfoldable pub label : HiveType → Text
label system = codes "SYSTEM"
label software = codes "SOFTWARE"
label ntuser = codes "NTUSER"
label sam = codes "SAM"
label security = codes "SECURITY"
label usr_class = codes "USRCLASS"
label amcache = codes "AMCACHE"
label unknown = codes "UNKNOWN"

-- The chain of tests on the lowered names; `hay` is `format!("{name} {root}")`.
unfoldable pub sniff_lowered : Text → Text → HiveType
sniff_lowered name root =
    let hay = name ++ (b' ' ∷ root) in
    if contains (codes "amcache") hay
    then amcache
    else if contains (codes "ntuser") hay
    then ntuser
    else if contains (codes "usrclass") hay
    then usr_class
    else if contains (codes "security") hay
    then security
    else if contains (codes "software") hay
    then software
    else if contains (codes "system") hay
    then system
    else if ends_with (codes "sam") name
        || ends_with (codes "\\sam") name
        || text_eq root (codes "sam")
    then sam
    else unknown

unfoldable pub sniff : Text → Option Text → HiveType
unfolding sniff_lowered
sniff filename root_key_name =
    sniff_lowered (to_lower filename) (to_lower (unwrap_or root_key_name []))
