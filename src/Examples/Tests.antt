-- ===== src/Examples/Tests.antt =====
-- Tests after the unit tests of crates/reghive-core.
use vgi_reghive.Base.{◌≡◌, refl, true, false, none, some, [], ◌∷◌, codes}
use vgi_reghive.BaseBlock.{parse}
use vgi_reghive.BaseBlock.Kinds
use vgi_reghive.LogParse.{summarize}
use vgi_reghive.LogParse.Format.{label, absent}
use vgi_reghive.ValueType.{type_name, coerce, to_hex_lower, decode_utf16le, decode_lossy}
use vgi_reghive.ValueType.{trim_nul, any_error}
use vgi_reghive.Base.Utf16.{units, decode_utf16}
use vgi_reghive.Base.Words.{from_le}
use vgi_reghive.Base.Int.{pos}
use vgi_reghive.Base.Strings.{text_eq}
use vgi_reghive.Cursor.{new, advance_file, is_exhausted}

empty_is_truncated : parse [] ≡ (none, Kinds.truncated)
unfolding parse
empty_is_truncated = refl

bad_signature : parse (codes "MZ\0\0\0\0\0\0") ≡ (none, Kinds.bad_signature)
unfolding parse text_eq
bad_signature = refl

name_of_sz : type_name 1 ≡ codes "REG_SZ"
unfolding type_name
name_of_sz = refl

name_of_unknown : type_name 0x1234 ≡ codes "REG_564"
unfolding type_name
name_of_unknown = refl

bad_utf16_flagged : (coerce 1 (0 ∷ 0xd8 ∷ [])).diagnostics ≡ some (codes "bad-utf16")
unfolding coerce decode_utf16le units decode_utf16 any_error decode_lossy trim_nul
bad_utf16_flagged = refl

dword_be : (coerce 5 (0 ∷ 0 ∷ 0 ∷ 1 ∷ [])).value_dword ≡ some (pos 1)
unfolding coerce from_le
dword_be = refl

binary_hex : (coerce 3 (0xde ∷ 0xad ∷ [])).value_data ≡ codes "dead"
unfolding coerce to_hex_lower
binary_hex = refl

empty_log_is_none : (summarize []).format_label ≡ label absent
unfolding summarize
empty_log_is_none = refl

one_file_is_left : is_exhausted (advance_file (new (codes "a" ∷ codes "b" ∷ []))) ≡ false
unfolding is_exhausted advance_file new
one_file_is_left = refl

none_is_left : is_exhausted (advance_file (advance_file (new (codes "a" ∷ codes "b" ∷ [])))) ≡ true
unfolding is_exhausted advance_file new
none_is_left = refl
