-- ===== src/HiveGen/Fixtures.antt =====
-- The golden hives of crates/reghive-core/examples/gen_fixtures.rs: their specs, and the blobs that
-- are written.
use vgi_reghive.Base.{ℕ, List, [], ◌∷◌, ◌++◌, Option, Bytes, Text, codes, replicate, ◌≡◌, refl}
use vgi_reghive.Base.{ap, ◌∙◌, sym, append_assoc}
use vgi_reghive.Base.Words.{to_le}
use vgi_reghive.Base.Utf16.{units_to_le, encode_utf16, units_to_le-append}
use vgi_reghive.ValueType.Strings.{sz_bytes}
use vgi_reghive.ValueType.MultiStrings.{multi_units}
use vgi_reghive.HiveGen.Spec.{ValueSpec, KeySpec, HiveSpec, new_key, with_value, with_subkey}
use vgi_reghive.HiveGen.Spec.{new_hive, dirty}
use vgi_reghive.HiveGen.Build.{build}

unfoldable pub sz : Text → Bytes
sz s = units_to_le (encode_utf16 s) ++ 0 ∷ 0 ∷ []

-- The parts, each with its NUL.
unfoldable pub multi_parts : List Text → Bytes
multi_parts [] = []
multi_parts (p ∷ parts) = units_to_le (encode_utf16 p) ++ (0 ∷ 0 ∷ multi_parts parts)

unfoldable pub multi : List Text → Bytes
unfolding multi_parts
multi parts = multi_parts parts ++ 0 ∷ 0 ∷ []

-- `ValueSpec::new`
abbrev pub new_value : Text → ℕ → Bytes → ValueSpec
new_value name type_raw bytes = record { name = name; type_raw = type_raw; bytes = bytes }

abbrev pub software_run : KeySpec
software_run =
    with_value
      (with_value
        (with_value
          (with_value
            (with_value (new_key (codes "Run"))
              (new_value (codes "Updater") 1 (sz (codes "C:\\Windows\\evil.exe"))))
            (new_value (codes "Start") 4 (to_le 4 2)))
          (new_value (codes "Big") 11 (to_le 8 0x1122_3344_5566)))
        (new_value (codes "List") 7 (multi (codes "alpha" ∷ codes "beta" ∷ []))))
      (new_value (codes "Blob") 3 (0xde ∷ 0xad ∷ 0xbe ∷ 0xef ∷ []))

abbrev pub software_spec : HiveSpec
software_spec =
    let cv = with_subkey (new_key (codes "CurrentVersion")) software_run in
    let windows = with_subkey (new_key (codes "Windows")) cv in
    let ms = with_subkey (new_key (codes "Microsoft")) windows in
    let software_key = with_subkey (new_key (codes "Software")) ms in
    let root = with_subkey (new_key (codes "CMI-CreateHive-{SOFTWARE-GUID}")) software_key in
    let spec = new_hive (codes "\\SystemRoot\\System32\\Config\\SOFTWARE") root in
    record spec {
      deleted_orphans =
          with_value (new_key (codes "GhostKey"))
            (new_value (codes "Trace") 1 (sz (codes "was-here")))
          ∷ [];
    }

unfoldable pub software : Option Bytes
software = build software_spec

abbrev pub system_root : KeySpec
system_root =
    let svc =
      with_value (with_value (new_key (codes "Schedule")) (new_value (codes "Start") 4 (to_le 4 3)))
        (new_value (codes "ImagePath") 2 (sz (codes "%SystemRoot%\\svc.exe"))) in
    let services = with_subkey (new_key (codes "Services")) svc in
    let cs = with_subkey (new_key (codes "ControlSet001")) services in
    with_subkey (new_key (codes "CMI-CreateHive-{SYSTEM-GUID}")) cs

abbrev pub system_spec : HiveSpec
system_spec = new_hive (codes "\\Config\\SYSTEM") system_root

unfoldable pub system_dirty : Option Bytes
system_dirty = build (dirty system_spec)

unfoldable pub system_clean : Option Bytes
system_clean = build system_spec

abbrev pub sam_spec : HiveSpec
sam_spec =
    let user =
      with_value
        (with_value (new_key (codes "000001F4")) (new_value (codes "V") 3 (replicate 16 0)))
        (new_value (codes "F") 3 (replicate 8 0)) in
    let users = with_subkey (new_key (codes "Users")) user in
    let sam_key = with_subkey (new_key (codes "SAM")) users in
    let root = with_subkey (new_key (codes "CMI-CreateHive-{SAM-GUID}")) sam_key in
    new_hive (codes "\\Config\\SAM") root

unfoldable pub sam : Option Bytes
sam = build sam_spec

-- The strings of the fixtures are those that the coercion of values reads back.
pub sz-sz_bytes : (s : Text) → sz s ≡ sz_bytes s
unfolding sz units_to_le to_le
sz-sz_bytes s = sym (units_to_le-append (encode_utf16 s) (0 ∷ []))

multi_parts-units :
    (parts : List Text) → multi_parts parts ++ 0 ∷ 0 ∷ [] ≡ units_to_le (multi_units parts)
unfolding multi_parts units_to_le to_le
multi_parts-units [] = refl
multi_parts-units (p ∷ parts) =
    append_assoc (units_to_le (encode_utf16 p)) (0 ∷ 0 ∷ multi_parts parts) (0 ∷ 0 ∷ [])
    ∙ ap (λ (t : Bytes). units_to_le (encode_utf16 p) ++ (0 ∷ 0 ∷ t)) (multi_parts-units parts)
    ∙ sym (units_to_le-append (encode_utf16 p) (0 ∷ multi_units parts))

pub multi-units : (parts : List Text) → multi parts ≡ units_to_le (multi_units parts)
unfolding multi
multi-units parts = multi_parts-units parts
