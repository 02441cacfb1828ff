-- ===== src/Examples/Values.antt =====
-- The decoding of values at concrete inputs.
use vgi_reghive.Base.{ℕ, ◌<◌, ◌≡◌, refl, ◌≢◌, ◌↔◌, inl, inr, none, some, [], ◌∷◌, ◌++◌, arith}
use vgi_reghive.Base.{length, codes, ◌⊎◌}
use vgi_reghive.Base.Words.{to_le}
use vgi_reghive.Base.Int.{pos}
use vgi_reghive.ValueType.{coerce, truncated, masked, join_lines, decode_utf16le, trim_nul}
use vgi_reghive.ValueType.{decode_lossy, any_error}
use vgi_reghive.ValueType.Strings.{coerce_sz, sz_bytes}
use vgi_reghive.ValueType.MultiStrings.{coerce_multi_sz, multi_units}
use vgi_reghive.ValueType.Hex.{coerce_hex, from_hex}
use vgi_reghive.ValueType.Numbers.{coerce-dword_iff, coerce-truncated_iff, coerce_dword}
use vgi_reghive.ValueType.Numbers.{HasNumber, IsCut}
use vgi_reghive.Base.Utf16.{units_to_le, IsPlain, units, decode_utf16, encode_utf16}
use vgi_reghive.Base.Decimal.{decimal}
use vgi_reghive.ValueType.Lossless.{coerce_text_lossless}

plain : (c : ℕ) → (0 < c) × (c < 0xd800) → IsPlain c
plain c (h, k) = (inl k, h)

coerce_sz_example :
    coerce 1 (sz_bytes (codes "Run"))
    ≡ record { value_data = codes "Run"; value_dword = none; diagnostics = none }
unfolding masked
coerce_sz_example = coerce_sz 1 (codes "Run") (inl refl) (
  plain 82 (omega arith, omega arith),
  (plain 117 (omega arith, omega arith), (plain 110 (omega arith, omega arith), tt)),
)

coerce_multi_sz_example :
    coerce 7 (units_to_le (multi_units (codes "a" ∷ codes "bc" ∷ [])))
    ≡ record { value_data = codes "a\nbc"; value_dword = none; diagnostics = none }
unfolding masked join_lines
coerce_multi_sz_example = coerce_multi_sz 7 (codes "a" ∷ codes "bc" ∷ []) refl (
  ((plain 97 (omega arith, omega arith), tt), omega arith),
  (
    ((plain 98 (omega arith, omega arith), (plain 99 (omega arith, omega arith), tt)), omega arith),
    tt,
  ),
)

coerce_hex_example :
    (from_hex (coerce 3 (0xde ∷ 0x0a ∷ [])).value_data ≡ 0xde ∷ 0x0a ∷ [])
    × (length (coerce 3 (0xde ∷ 0x0a ∷ [])).value_data ≡ 4)
    × ((coerce 3 (0xde ∷ 0x0a ∷ [])).value_dword ≡ none)
    × ((coerce 3 (0xde ∷ 0x0a ∷ [])).diagnostics ≡ none)
unfolding masked
coerce_hex_example =
    coerce_hex 3 (0xde ∷ 0x0a ∷ []) (inr (inl refl)) (omega arith, (omega arith, tt))

coerce-dword_iff_example :
    ((coerce 4 (7 ∷ 0 ∷ 0 ∷ 0 ∷ [])).value_dword ≢ none) ↔ HasNumber 4 (7 ∷ 0 ∷ 0 ∷ 0 ∷ [])
coerce-dword_iff_example = coerce-dword_iff 4 (7 ∷ 0 ∷ 0 ∷ 0 ∷ [])

coerce-truncated_iff_example : ((coerce 4 (7 ∷ [])).diagnostics ≡ truncated) ↔ IsCut 4 (7 ∷ [])
coerce-truncated_iff_example = coerce-truncated_iff 4 (7 ∷ [])

coerce_dword_example :
    coerce 4 (to_le 4 300 ++ 9 ∷ [])
    ≡ record { value_data = codes "300"; value_dword = some (pos 300); diagnostics = none }
unfolding masked decimal
coerce_dword_example = coerce_dword 4 300 (9 ∷ []) refl (omega arith)

coerce_text_lossless_example :
    (units_to_le (encode_utf16 (coerce 1 (b'R' ∷ 0 ∷ 0 ∷ 0 ∷ [])).value_data)
      ≡ b'R' ∷ 0 ∷ 0 ∷ 0 ∷ [])
    ⊎ (units_to_le (encode_utf16 (coerce 1 (b'R' ∷ 0 ∷ 0 ∷ 0 ∷ [])).value_data ++ 0 ∷ [])
        ≡ b'R' ∷ 0 ∷ 0 ∷ 0 ∷ [])
unfolding coerce masked decode_utf16le trim_nul decode_lossy any_error units decode_utf16
coerce_text_lossless_example =
    coerce_text_lossless 1 (b'R' ∷ 0 ∷ 0 ∷ 0 ∷ []) (inl refl)
      (omega arith, (omega arith, (omega arith, (omega arith, tt)))) refl
