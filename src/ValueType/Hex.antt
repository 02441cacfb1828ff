-- ===== src/ValueType/Hex.antt =====
-- The hex rendering is lossless.
use vgi_reghive.Base.{ℕ, ◌+◌, ◌-◌, ◌*◌, ◌/◌, ◌%◌, ◌<◌, ◌≡◌, refl, ◌≢◌, ◌⊎◌, none, [], ◌∷◌, arith}
use vgi_reghive.Base.{ltb, if◌then◌else◌, length, All, Bytes, IsByte, Text}
use vgi_reghive.ValueType.{to_hex_lower, masked, hex_digit, coerce, as_hex}

-- The value of a lower-case hex digit.
abbrev pub digit_value : ℕ → ℕ
digit_value c = if ltb c b'a' then c - b'0' else c - b'a' + 10

abbrev pub from_hex : Text → Bytes
from_hex [] = []
from_hex (c ∷ []) = []
from_hex (c ∷ d ∷ s) = (digit_value c * 16 + digit_value d) ∷ from_hex s

pub digit_value-hex_digit : (d : ℕ) → d < 16 → digit_value (hex_digit d) ≡ d
unfolding hex_digit
digit_value-hex_digit d h = ground arith

pub from_hex-to_hex_lower : (bs : Bytes) → All IsByte bs → from_hex (to_hex_lower bs) ≡ bs
unfolding to_hex_lower
from_hex-to_hex_lower [] h = refl
from_hex-to_hex_lower (b ∷ bs) (hb, h) =
    let hi = digit_value-hex_digit (b / 16) (omega arith) in
    let lo = digit_value-hex_digit (b % 16) (omega arith) in
    let e : digit_value (hex_digit (b / 16)) * 16 + digit_value (hex_digit (b % 16)) ≡ b =
      omega arith in
    λ i. e i ∷ from_hex-to_hex_lower bs h i

pub length-to_hex_lower : (bs : Bytes) → length (to_hex_lower bs) ≡ 2 * length bs
unfolding to_hex_lower
length-to_hex_lower [] = omega arith
length-to_hex_lower (b ∷ bs) = omega (arith, length-to_hex_lower bs)

-- Binary, typeless and unknown values.
abbrev pub IsHexType : ℕ → Type 0
IsHexType t = (masked t ≡ 0) ⊎ (masked t ≡ 3) ⊎ ((7 < masked t) × (masked t ≢ 11) × (masked t ≢ 16))

coerce_binary : (t : ℕ) (raw : Bytes) → IsHexType t → coerce t raw ≡ as_hex raw none
unfolding coerce
coerce_binary t raw h = ground arith

-- The bytes of a binary, typeless or unknown value are rendered in two characters each, from which
-- they can be read back, with no number and no diagnostic.
pub coerce_hex :
    (t : ℕ) (raw : Bytes)
    → IsHexType t
    → All IsByte raw
    → (from_hex (coerce t raw).value_data ≡ raw)
      × (length (coerce t raw).value_data ≡ 2 * length raw)
      × ((coerce t raw).value_dword ≡ none)
      × ((coerce t raw).diagnostics ≡ none)
coerce_hex t raw k h =
    rw (coerce_binary t raw k) (from_hex-to_hex_lower raw h, length-to_hex_lower raw, refl, refl)
