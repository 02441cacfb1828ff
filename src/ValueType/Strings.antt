-- ===== src/ValueType/Strings.antt =====
-- String values: what was written in UTF-16LE is read back, with no diagnostic.
use vgi_reghive.Base.{ℕ, ◌≡◌, refl, ap, ◌∙◌, ◌⊎◌, inl, inr, false, none, some, List, [], ◌∷◌}
use vgi_reghive.Base.{◌++◌, map, arith, All, All-append, Bytes, Text}
use vgi_reghive.ValueType.{trim_nul, masked, has_odd_length, decode_lossy, coerce, any_error}
use vgi_reghive.ValueType.{decode_utf16le, as_text}
use vgi_reghive.Base.Utf16.{units_to_le, IsPlainUnit, IsPlain, length-units_to_le, encode_utf16}
use vgi_reghive.Base.Utf16.{IsUnit, IsScalar, units-units_to_le, encode_utf16-units}
use vgi_reghive.Base.Utf16.{decode-encode_utf16, or_replacement, lossy_some}

any_error-some : (s : Text) → any_error (map some s) ≡ false
unfolding any_error
any_error-some [] = refl
any_error-some (c ∷ s) = any_error-some s

pub decode_lossy-encode : (s : Text) → All IsScalar s → decode_lossy (encode_utf16 s) ≡ (s, false)
unfolding decode_lossy
decode_lossy-encode s h =
    let e = decode-encode_utf16 s h in
    λ i. ((ap (map or_replacement) e ∙ lossy_some s) i, (ap any_error e ∙ any_error-some s) i)

trim_nul-append : (us : List ℕ) → trim_nul (us ++ 0 ∷ []) ≡ us
unfolding trim_nul
trim_nul-append [] = refl
trim_nul-append (u ∷ []) = refl
trim_nul-append (u ∷ v ∷ us) = ap (◌∷◌ u) (trim_nul-append (v ∷ us))

trim_nul_plain : (us : List ℕ) → All IsPlainUnit us → trim_nul us ≡ us
unfolding trim_nul
trim_nul_plain [] h = refl
trim_nul_plain (u ∷ []) h = ground arith
trim_nul_plain (u ∷ v ∷ us) (hu, h) = ap (◌∷◌ u) (trim_nul_plain (v ∷ us) h)

pub even_bytes : (us : List ℕ) → has_odd_length (units_to_le us) ≡ false
even_bytes us = ground (arith, length-units_to_le us)

pub All-units : (us : List ℕ) → All IsPlainUnit us → All IsUnit us
All-units [] h = tt
All-units (u ∷ us) (hu, h) = (hu.1, All-units us h)

pub All-scalars : (s : Text) → All IsPlain s → All IsScalar s
All-scalars [] h = tt
All-scalars (c ∷ s) (hc, h) = (hc.0, All-scalars s h)

-- The bytes of a string with its terminating NUL.
abbrev pub sz_bytes : Text → Bytes
sz_bytes s = units_to_le (encode_utf16 s ++ 0 ∷ [])

decode_utf16le_units :
    (us : List ℕ) → All IsUnit us → decode_utf16le (units_to_le us) ≡ decode_lossy (trim_nul us)
unfolding decode_utf16le
decode_utf16le_units us h = rw (units-units_to_le us h, even_bytes us)

-- A string of characters other than NUL is decoded exactly, with its terminator and without.
pub decode_utf16le-encode :
    (s : Text)
    → All IsPlain s
    → (decode_utf16le (sz_bytes s) ≡ (s, false))
      × (decode_utf16le (units_to_le (encode_utf16 s)) ≡ (s, false))
decode_utf16le-encode s h = (
  decode_utf16le_units (encode_utf16 s ++ 0 ∷ [])
        (All-append IsUnit (encode_utf16 s) (0 ∷ []) (All-units _ plain) (omega arith))
      ∙ ap decode_lossy (trim_nul-append (encode_utf16 s))
      ∙ decode_lossy-encode s (All-scalars s h),
  decode_utf16le_units (encode_utf16 s) (All-units _ plain)
      ∙ ap decode_lossy (trim_nul_plain (encode_utf16 s) plain)
      ∙ decode_lossy-encode s (All-scalars s h),
)
  where
    plain : All IsPlainUnit (encode_utf16 s)
    plain = encode_utf16-units s h

-- REG_SZ, REG_EXPAND_SZ and REG_LINK.
abbrev pub IsTextType : ℕ → Type 0
IsTextType t = (masked t ≡ 1) ⊎ (masked t ≡ 2) ⊎ (masked t ≡ 6)

pub coerce_text : (t : ℕ) (raw : Bytes) → IsTextType t → coerce t raw ≡ as_text (decode_utf16le raw)
unfolding coerce
coerce_text t raw (inl e) = rw e
coerce_text t raw (inr (inl e)) = rw e
coerce_text t raw (inr (inr e)) = rw e

-- A value of the types REG_SZ, REG_EXPAND_SZ and REG_LINK that holds characters other than NUL, in
-- UTF-16LE with a terminating NUL, has those characters as its text, no number and no diagnostic.
pub coerce_sz :
    (t : ℕ) (s : Text)
    → IsTextType t
    → All IsPlain s
    → coerce t (sz_bytes s) ≡ record { value_data = s; value_dword = none; diagnostics = none }
coerce_sz t s k h = coerce_text t (sz_bytes s) k ∙ ap as_text (decode_utf16le-encode s h).0
