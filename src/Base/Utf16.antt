-- ===== src/Base/Utf16.antt =====
-- UTF-16: `char::decode_utf16`, `String::from_utf16_lossy` and `str::encode_utf16` of Rust's standard
-- library, on code units and code points.
use Prim.Native.Nat.{ℕ, ◌+◌, ◌-◌, ◌*◌, ◌/◌, ◌%◌, ◌<◌, ◌≤◌}
use mathlib.Core.Path.{◌≡◌, refl, ap, ◌∙◌}
use mathlib.Core.Bool.{Bool, true, false, ◌&&◌}
use mathlib.Core.Logic.{◌⊎◌, inl, inr}
use mathlib.Core.Option.{Option, none, some}
use mathlib.Core.List.{List, [], ◌∷◌, ◌++◌, map}
use native.Mathlib.Omega.{arith}
use vgi_reghive.Base.Tests.{ltb, leb, if◌then◌else◌, unwrap_or, Bool-cases, ltb→lt}
use vgi_reghive.Base.Lists.{All, All-append, length}
use vgi_reghive.Base.Strings.{Text}
use vgi_reghive.Base.Words.{to_le, Bytes}

abbrev pub is_high : ℕ → Bool
is_high u = leb 0xd800 u && ltb u 0xdc00

abbrev pub is_low : ℕ → Bool
is_low u = leb 0xdc00 u && ltb u 0xe000

abbrev pub is_surrogate : ℕ → Bool
is_surrogate u = leb 0xd800 u && ltb u 0xe000

abbrev pub joined : ℕ → ℕ → ℕ
joined u v = 0x10000 + (u - 0xd800) * 0x400 + (v - 0xdc00)

-- A unit that takes no partner: itself, or an unpaired surrogate.
abbrev pub alone : ℕ → Option ℕ
alone u = if is_surrogate u then none else some u

-- `none` is an error of the decoder: an unpaired surrogate.
unfoldable pub decode_utf16 : List ℕ → List (Option ℕ)
decode_utf16 [] = []
decode_utf16 (u ∷ []) = alone u ∷ []
decode_utf16 (u ∷ v ∷ rest) = elim (is_high u && is_low v) [
  | true ↦ some (joined u v) ∷ decode_utf16 rest
  | false ↦ alone u ∷ decode_utf16 (v ∷ rest)
]

abbrev pub replacement : ℕ
replacement = 0xfffd

abbrev pub or_replacement : Option ℕ → ℕ
or_replacement o = unwrap_or o replacement

-- `String::from_utf16_lossy`
unfoldable pub from_utf16_lossy : List ℕ → Text
unfolding decode_utf16
from_utf16_lossy us = map or_replacement (decode_utf16 us)

-- `str::encode_utf16`
unfoldable pub encode_char : ℕ → List ℕ
encode_char c =
    if ltb c 0x10000
    then c ∷ []
    else (0xd800 + (c - 0x10000) / 0x400) ∷ (0xdc00 + (c - 0x10000) % 0x400) ∷ []

unfoldable pub encode_utf16 : Text → List ℕ
unfolding encode_char
encode_utf16 [] = []
encode_utf16 (c ∷ s) = encode_char c ++ encode_utf16 s

-- The code points that are characters: Rust's `char`.
abbrev pub IsScalar : ℕ → Type 0
IsScalar c = (c < 0xd800) ⊎ ((0xdfff < c) × (c < 0x110000))

decode_plain :
    (u : ℕ) (rest : List ℕ)
    → (u < 0xd800) ⊎ (0xdfff < u)
    → decode_utf16 (u ∷ rest) ≡ some u ∷ decode_utf16 rest
unfolding decode_utf16
decode_plain u [] h = ground arith
decode_plain u (v ∷ rest) h = ground arith

decode_pair :
    (u v : ℕ) (rest : List ℕ)
    → is_high u ≡ true
    → is_low v ≡ true
    → decode_utf16 (u ∷ v ∷ rest) ≡ some (joined u v) ∷ decode_utf16 rest
unfolding decode_utf16
decode_pair u v rest h k = ground arith

-- Decoding takes back the encoding of a character, whatever units follow.
decode-encode_char :
    (c : ℕ) (rest : List ℕ)
    → IsScalar c
    → decode_utf16 (encode_char c ++ rest) ≡ some c ∷ decode_utf16 rest
unfolding encode_char
decode-encode_char c rest h = elim (Bool-cases (ltb c 0x10000)) [
  | inl small ↦ rw small (decode_plain c rest (ground arith))
  | inr large ↦ rw large (
      let hi = 0xd800 + (c - 0x10000) / 0x400 in
      let lo = 0xdc00 + (c - 0x10000) % 0x400 in
      let e : joined hi lo ≡ c = ground arith in
      decode_pair hi lo rest (ground arith) (ground arith)
      ∙ ap (λ (t : ℕ). some t ∷ decode_utf16 rest) e)
]

pub decode-encode_utf16 : (s : Text) → All IsScalar s → decode_utf16 (encode_utf16 s) ≡ map some s
unfolding encode_utf16
decode-encode_utf16 [] h = unfold decode_utf16 in refl
decode-encode_utf16 (c ∷ s) (hc, h) =
    decode-encode_char c (encode_utf16 s) hc ∙ ap (◌∷◌ (some c)) (decode-encode_utf16 s h)

pub lossy_some : (s : Text) → map or_replacement (map some s) ≡ s
lossy_some [] = refl
lossy_some (c ∷ s) = ap (◌∷◌ c) (lossy_some s)

-- The lossy decoder loses nothing of well-formed UTF-16.
pub from_utf16_lossy-encode : (s : Text) → All IsScalar s → from_utf16_lossy (encode_utf16 s) ≡ s
unfolding from_utf16_lossy
from_utf16_lossy-encode s h = ap (map or_replacement) (decode-encode_utf16 s h) ∙ lossy_some s

-- The units of a little-endian byte string; a last odd byte is no unit.
unfoldable pub units : Bytes → List ℕ
units [] = []
units (a ∷ []) = []
units (a ∷ b ∷ rest) = (a + 256 * b) ∷ units rest

-- Units as little-endian bytes, `to_le_bytes` of each.
unfoldable pub units_to_le : List ℕ → Bytes
unfolding to_le
units_to_le [] = []
units_to_le (u ∷ us) = to_le 2 u ++ units_to_le us

abbrev pub IsUnit : ℕ → Type 0
IsUnit u = u < 0x10000

pub units-units_to_le : (us : List ℕ) → All IsUnit us → units (units_to_le us) ≡ us
unfolding units units_to_le
units-units_to_le [] h = refl
units-units_to_le (u ∷ us) (hu, h) =
    let e : u % 256 + 256 * (u / 256 % 256) ≡ u = omega arith in λ i. e i ∷ units-units_to_le us h i

pub length-units_to_le : (us : List ℕ) → length (units_to_le us) ≡ 2 * length us
unfolding units_to_le
length-units_to_le [] = omega arith
length-units_to_le (u ∷ us) = omega (arith, length-units_to_le us)

pub units_to_le-append :
    (us vs : List ℕ) → units_to_le (us ++ vs) ≡ units_to_le us ++ units_to_le vs
unfolding units_to_le
units_to_le-append [] vs = refl
units_to_le-append (u ∷ us) vs =
    ap (λ (t : Bytes). (u % 256) ∷ (u / 256 % 256) ∷ t) (units_to_le-append us vs)

-- A character that is not NUL is written in units that are not 0.
abbrev pub IsPlain : ℕ → Type 0
IsPlain c = IsScalar c × (0 < c)

abbrev pub IsPlainUnit : ℕ → Type 0
IsPlainUnit u = (0 < u) × (u < 0x10000)

encode_char-units : (c : ℕ) → IsPlain c → All IsPlainUnit (encode_char c)
unfolding encode_char
encode_char-units c h = elim (Bool-cases (ltb c 0x10000)) [
  | inl small ↦ rw small (omega (arith, ltb→lt c 0x10000 small))
  | inr large ↦ rw large (ground arith)
]

pub encode_utf16-units : (s : Text) → All IsPlain s → All IsPlainUnit (encode_utf16 s)
unfolding encode_utf16
encode_utf16-units [] h = tt
encode_utf16-units (c ∷ s) (hc, h) =
    All-append IsPlainUnit (encode_char c) (encode_utf16 s) (encode_char-units c hc)
      (encode_utf16-units s h)

encode_char-ne-nil : (c : ℕ) (rest : List ℕ) → 1 ≤ length (encode_char c ++ rest)
unfolding encode_char
encode_char-ne-nil c rest = ground arith

-- A text that is not empty has a unit.
pub length-encode_utf16 : (s : Text) → 1 ≤ length s → 1 ≤ length (encode_utf16 s)
unfolding encode_utf16
length-encode_utf16 [] h = h
length-encode_utf16 (c ∷ s) h = encode_char-ne-nil c (encode_utf16 s)
