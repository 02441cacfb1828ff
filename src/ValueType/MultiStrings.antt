-- ===== src/ValueType/MultiStrings.antt =====
-- REG_MULTI_SZ: the parts that were written are the parts that are read.
use vgi_reghive.Base.{ℕ, ◌≤◌, ◌<◌, ◌≡◌, refl, sym, ap, ◌∙◌, Bool, true, false, ◌||◌, none, List}
use vgi_reghive.Base.{[], ◌∷◌, ◌++◌, append-nil, append_assoc, arith, ◌==◌, length, All}
use vgi_reghive.Base.{All-append, Text}
use vgi_reghive.ValueType.{split_multi_sz, split_loop, coerce, masked, decode_lossy, join_lines}
use vgi_reghive.ValueType.{last_part}
use vgi_reghive.Base.Utf16.{encode_utf16, IsPlain, units_to_le, encode_utf16-units, IsUnit}
use vgi_reghive.Base.Utf16.{IsPlainUnit, units-units_to_le, length-encode_utf16}
use vgi_reghive.ValueType.Strings.{All-units, even_bytes, decode_lossy-encode, All-scalars}

-- The units of a list of strings: each with its NUL, and a NUL at the end.
abbrev pub multi_units : List Text → List ℕ
multi_units [] = 0 ∷ []
multi_units (p ∷ ps) = encode_utf16 p ++ (0 ∷ multi_units ps)

-- A part is not empty, and has no NUL in it.
abbrev pub IsPart : Text → Type 0
IsPart p = All IsPlain p × (1 ≤ length p)

ne_zero : (u : ℕ) → 0 < u → (u == 0) ≡ false
ne_zero u h = ground arith

-- Units other than 0 are gathered in the current part.
split_loop-plain :
    (us rest : List ℕ) (parts : List Text) (cur : List ℕ) (bad : Bool)
    → All IsPlainUnit us
    → split_loop (us ++ rest) parts cur bad ≡ split_loop rest parts (cur ++ us) bad
unfolding split_loop
split_loop-plain [] rest parts cur bad h =
    ap (λ (t : List ℕ). split_loop rest parts t bad) (sym (append-nil cur))
split_loop-plain (u ∷ us) rest parts [] bad (hu, h) =
    rw (ne_zero u hu.0, split_loop) (split_loop-plain us rest parts (u ∷ []) bad h)
split_loop-plain (u ∷ us) rest parts (c ∷ cur) bad (hu, h) =
    rw (ne_zero u hu.0, split_loop)
      (split_loop-plain us rest parts (c ∷ (cur ++ u ∷ [])) bad h
        ∙ ap (λ (t : List ℕ). split_loop rest parts (c ∷ t) bad) (append_assoc cur (u ∷ []) us))

-- A NUL ends a part that is not empty.
split_loop-nul :
    (rest : List ℕ) (parts : List Text) (cur : List ℕ) (bad : Bool) (text : Text)
    → 1 ≤ length cur
    → decode_lossy cur ≡ (text, false)
    → split_loop (0 ∷ rest) parts cur bad ≡ split_loop rest (parts ++ text ∷ []) [] (bad || false)
unfolding split_loop
split_loop-nul rest parts [] bad text h e = absurd (omega arith)
split_loop-nul rest parts (c ∷ cur) bad text h e =
    ap (λ (p : Text × Bool). split_loop rest (parts ++ p.0 ∷ []) [] (bad || p.1)) e

or_false : (b : Bool) → (b || false) ≡ b
or_false true = refl
or_false false = refl

split_loop-parts :
    (ps parts : List Text) (bad : Bool)
    → All IsPart ps
    → split_loop (multi_units ps) parts [] bad ≡ (parts ++ ps, [], bad)
split_loop-parts [] parts bad h =
    unfold split_loop in ap (λ (t : List Text). (t, [], bad)) (sym (append-nil parts))
split_loop-parts (p ∷ ps) parts bad (hp, h) =
    split_loop-plain (encode_utf16 p) (0 ∷ multi_units ps) parts [] bad (encode_utf16-units p hp.0)
    ∙ split_loop-nul (multi_units ps) parts (encode_utf16 p) bad p (length-encode_utf16 p hp.1)
        (decode_lossy-encode p (All-scalars p hp.0))
    ∙ ap (split_loop (multi_units ps) (parts ++ p ∷ []) []) (or_false bad)
    ∙ split_loop-parts ps (parts ++ p ∷ []) bad h
    ∙ ap (λ (t : List Text). (t, [], bad)) (append_assoc parts (p ∷ []) ps)

multi_units-IsUnit : (ps : List Text) → All IsPart ps → All IsUnit (multi_units ps)
multi_units-IsUnit [] h = omega arith
multi_units-IsUnit (p ∷ ps) (hp, h) =
    All-append IsUnit (encode_utf16 p) (0 ∷ multi_units ps)
      (All-units (encode_utf16 p) (encode_utf16-units p hp.0))
      (omega arith, multi_units-IsUnit ps h)

-- Splitting what was written gives the parts, with no defect reported.
pub split_multi_sz-units :
    (ps : List Text) → All IsPart ps → split_multi_sz (units_to_le (multi_units ps)) ≡ (ps, false)
unfolding split_multi_sz
split_multi_sz-units ps h =
    rw (units-units_to_le (multi_units ps) (multi_units-IsUnit ps h), even_bytes (multi_units ps))
      (ap last_part (split_loop-parts ps [] false h))

-- A REG_MULTI_SZ that holds strings, none empty and none with a NUL, each with its NUL and with one
-- at the end, has the strings joined by line feeds as its text, no number and no diagnostic.
pub coerce_multi_sz :
    (t : ℕ) (ps : List Text)
    → masked t ≡ 7
    → All IsPart ps
    → coerce t (units_to_le (multi_units ps))
      ≡ record { value_data = join_lines ps; value_dword = none; diagnostics = none }
unfolding coerce
coerce_multi_sz t ps e h = rw (e, split_multi_sz-units ps h)
