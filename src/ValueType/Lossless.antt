-- ===== src/ValueType/Lossless.antt =====
-- A text without a diagnostic has lost nothing: its bytes can be written again.
use vgi_reghive.Base.{ℕ, ◌+◌, ◌*◌, ◌/◌, ◌%◌}
use vgi_reghive.Base.{◌<◌}
use vgi_reghive.Base.{◌≡◌, refl, sym, ap, ◌∙◌}
use vgi_reghive.Base.{◌⊎◌, inl, inr}
use vgi_reghive.Base.{Bool, true, false, ◌&&◌}
use vgi_reghive.Base.{Option, none, some}
use vgi_reghive.Base.{List, [], ◌∷◌, ◌++◌, map}
use vgi_reghive.Base.{arith}
use vgi_reghive.Base.{◌==◌}
use vgi_reghive.Base.{==_iff, Bool-cases}
use vgi_reghive.Base.{All}
use vgi_reghive.Base.{Bytes, IsByte}
use vgi_reghive.ValueType.{
  coerce, any_error, trim_nul, decode_lossy, decode_utf16le, has_odd_length, utf16_diagnostics,
}
use vgi_reghive.ValueType.Strings.{IsTextType, coerce_text}
use vgi_reghive.Base.Utf16.{
  decode_utf16, encode_utf16, encode_char, or_replacement, units, units_to_le, IsUnit, is_high,
  is_low, joined, alone,
}
use vgi_reghive.Base.Words.{to_le}

encode-joined : (u v : ℕ) → (is_high u && is_low v) ≡ true → encode_char (joined u v) ≡ u ∷ v ∷ []
unfolding encode_char
encode-joined u v h = ground arith

encode-alone :
    (u : ℕ)
    → u < 0x10000
    → any_error (alone u ∷ []) ≡ false
    → encode_char (or_replacement (alone u)) ≡ u ∷ []
unfolding encode_char any_error
encode-alone u h e = ground arith

any_error-alone :
    (u : ℕ) (os : List (Option ℕ))
    → any_error (alone u ∷ os) ≡ false
    → (any_error (alone u ∷ []) ≡ false) × (any_error os ≡ false)
unfolding any_error
any_error-alone u os e = ground arith

decode-pair :
    (u v : ℕ) (rest : List ℕ)
    → (is_high u && is_low v) ≡ true
    → decode_utf16 (u ∷ v ∷ rest) ≡ some (joined u v) ∷ decode_utf16 rest
unfolding decode_utf16
decode-pair u v rest p = rw (p, decode_utf16)

decode-alone :
    (u v : ℕ) (rest : List ℕ)
    → (is_high u && is_low v) ≡ false
    → decode_utf16 (u ∷ v ∷ rest) ≡ alone u ∷ decode_utf16 (v ∷ rest)
unfolding decode_utf16
decode-alone u v rest p = rw (p, decode_utf16)

encode-decode_one :
    (u : ℕ)
    → u < 0x10000
    → any_error (decode_utf16 (u ∷ [])) ≡ false
    → encode_utf16 (map or_replacement (decode_utf16 (u ∷ []))) ≡ u ∷ []
unfolding decode_utf16 encode_utf16
encode-decode_one u h e = ap (λ (t : List ℕ). t ++ []) (encode-alone u h e)

any_error-some :
    (c : ℕ) (os : List (Option ℕ)) → any_error (some c ∷ os) ≡ false → any_error os ≡ false
unfolding any_error
any_error-some c os e = e

-- The characters that were decoded without an error encode to the units.
encode-decode :
    (us : List ℕ)
    → All IsUnit us
    → any_error (decode_utf16 us) ≡ false
    → encode_utf16 (map or_replacement (decode_utf16 us)) ≡ us
unfolding encode_utf16
encode-decode [] h e = unfold decode_utf16 in refl
encode-decode (u ∷ []) (hu, h) e = encode-decode_one u hu e
encode-decode (u ∷ v ∷ rest) (hu, (hv, h)) e = elim (Bool-cases (is_high u && is_low v)) [
  | inl p ↦
      let q = decode-pair u v rest p in
      rw q (
        rw (encode-joined u v p) (
          ap (λ (t : List ℕ). u ∷ v ∷ t)
            (encode-decode rest h (any_error-some (joined u v) (decode_utf16 rest) (rw q at e)))))
  | inr p ↦
      let q = decode-alone u v rest p in
      let (now, later) = any_error-alone u (decode_utf16 (v ∷ rest)) (rw q at e) in
      rw q (rw (encode-alone u hu now) (ap (◌∷◌ u) (encode-decode (v ∷ rest) (hv, h) later)))
]

trim_nul-cases : (us : List ℕ) → (trim_nul us ≡ us) ⊎ (trim_nul us ++ 0 ∷ [] ≡ us)
unfolding trim_nul
trim_nul-cases [] = inl refl
trim_nul-cases (u ∷ []) = elim (Bool-cases (u == 0)) [
  | inl e ↦ inr (rw e (ap (λ n. n ∷ []) (sym ((==_iff u 0).0 e))))
  | inr e ↦ inl (rw e)
]
trim_nul-cases (u ∷ v ∷ us) = elim (trim_nul-cases (v ∷ us)) [
  | inl e ↦ inl (ap (◌∷◌ u) e)
  | inr e ↦ inr (ap (◌∷◌ u) e)
]

units_to_le-units :
    (raw : Bytes) → All IsByte raw → has_odd_length raw ≡ false → units_to_le (units raw) ≡ raw
unfolding units units_to_le to_le
units_to_le-units [] h e = refl
units_to_le-units (a ∷ []) h e = absurd (ground arith)
units_to_le-units (a ∷ b ∷ raw) (ha, (hb, h)) e =
    let low : (a + 256 * b) % 256 ≡ a = omega arith in
    let high : ((a + 256 * b) / 256) % 256 ≡ b = omega arith in
    let rest = units_to_le-units raw h (ground arith) in rw (low, high, rest)

trim_nul-IsUnit : (us : List ℕ) → All IsUnit us → All IsUnit (trim_nul us)
unfolding trim_nul
trim_nul-IsUnit [] h = h
trim_nul-IsUnit (u ∷ []) (hu, h) = elim (Bool-cases (u == 0)) [
  | inl e ↦ rw e tt
  | inr e ↦ rw e (hu, h)
]
trim_nul-IsUnit (u ∷ v ∷ us) (hu, h) = (hu, trim_nul-IsUnit (v ∷ us) h)

units-IsUnit : (raw : Bytes) → All IsByte raw → All IsUnit (units raw)
unfolding units
units-IsUnit [] h = tt
units-IsUnit (a ∷ []) h = tt
units-IsUnit (a ∷ b ∷ raw) (ha, (hb, h)) = (omega arith, units-IsUnit raw h)

encode-decode_utf16le :
    (raw : Bytes)
    → All IsByte raw
    → (decode_utf16le raw).1 ≡ false
    → (units_to_le (encode_utf16 (decode_utf16le raw).0) ≡ raw)
      ⊎ (units_to_le (encode_utf16 (decode_utf16le raw).0 ++ 0 ∷ []) ≡ raw)
unfolding decode_utf16le decode_lossy
encode-decode_utf16le raw h e =
    let (even, clean) = no_defect in
    let back =
      encode-decode (trim_nul (units raw)) (trim_nul-IsUnit (units raw) (units-IsUnit raw h))
        clean in
    let all = units_to_le-units raw h even in
    elim (trim_nul-cases (units raw)) [
      | inl t ↦ inl (ap units_to_le (back ∙ t) ∙ all)
      | inr t ↦ inr (ap units_to_le (ap (λ (us : List ℕ). us ++ 0 ∷ []) back ∙ t) ∙ all)
    ]
  where
    no_defect :
        (has_odd_length raw ≡ false) × (any_error (decode_utf16 (trim_nul (units raw))) ≡ false)
    no_defect = ground (arith, e)

-- The text of a string value of bytes that carries no diagnostic loses nothing: written in UTF-16LE,
-- with a terminating NUL or without, it is the value's bytes again.
pub coerce_text_lossless :
    (t : ℕ) (raw : Bytes)
    → IsTextType t
    → All IsByte raw
    → (coerce t raw).diagnostics ≡ none
    → (units_to_le (encode_utf16 (coerce t raw).value_data) ≡ raw)
      ⊎ (units_to_le (encode_utf16 (coerce t raw).value_data ++ 0 ∷ []) ≡ raw)
coerce_text_lossless t raw k h e =
    let q = coerce_text t raw k in
    rw q (encode-decode_utf16le raw h (no_tag (decode_utf16le raw).1 (rw q at e)))
  where
    no_tag : (bad : Bool) → utf16_diagnostics bad ≡ none → bad ≡ false
    no_tag bad d = ground arith
