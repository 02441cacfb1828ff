-- ===== src/HiveGen/Build/Filename.antt =====
-- The file name of a spec, through the base block of the built blob and back.
use vgi_reghive.HiveGen.Cells.Sizes.{take-all}
use vgi_reghive.Base.{ℕ, zero, suc, ◌+◌, ◌-◌, ◌*◌, ◌/◌, ◌%◌, ◌≤◌, ◌≡◌, refl, sym, ap, ◌∙◌, inl}
use vgi_reghive.Base.{inr, Option, some, List, [], ◌∷◌, ◌++◌, arith, Option-cases, length, take}
use vgi_reghive.Base.{drop, replicate, All, slice, slice_within, slice-append, length-append}
use vgi_reghive.Base.{length-replicate, drop-add, Bytes, Text, All-mono}
use vgi_reghive.HiveGen.Spec.{HiveSpec}
use vgi_reghive.HiveGen.Build.{build, base_writes, filename_bytes}
use vgi_reghive.HiveGen.Build.Header.{IsHeader, length-filename_bytes}
use vgi_reghive.HiveGen.Build.RoundTrip.{IsSpec, built, bins_len}
use vgi_reghive.HiveGen.Build.Parsed.{signed}
use vgi_reghive.BaseBlock.{rd_u32, BaseBlock, parse, read_fields, fields_with, hive_type}
use vgi_reghive.BaseBlock.{decode_utf16le, units_until_nul}
use vgi_reghive.BaseBlock.Classes.{parse_whole}
use vgi_reghive.BaseBlock.Sniff.{sniff}
use vgi_reghive.Base.Utf16.{units_to_le, encode_utf16, IsPlain, IsPlainUnit, encode_utf16-units}
use vgi_reghive.Base.Utf16.{from_utf16_lossy-encode, length-units_to_le, IsScalar}
use mathlib.Core.Option.{some-injective}

take-add : (n m : ℕ) (xs : Bytes) → take (n + m) xs ≡ take n xs ++ take m (drop n xs)
take-add zero m xs = ap (λ (t : ℕ). take t xs) (omega arith)
take-add (suc n) zero [] = ap (λ (t : ℕ). take t []) (let e : suc n + 0 ≡ suc n = omega arith in e)
take-add (suc n) (suc m) [] =
    ap (λ (t : ℕ). take t []) (let e : suc n + suc m ≡ suc (n + suc m) = omega arith in e)
take-add (suc n) m (x ∷ xs) =
    let e : suc n + m ≡ suc (n + m) = omega arith in rw e (ap (◌∷◌ x) (take-add n m xs))

-- Two ranges, one behind the other.
slice-join :
    (b x y : Bytes) (off n m : ℕ)
    → off + n + m ≤ length b
    → slice b off n ≡ some x
    → slice b (off + n) m ≡ some y
    → slice b off (n + m) ≡ some (x ++ y)
slice-join b x y off n m h e f =
    let ex = some-injective _ _ (sym (slice_within b off n (omega arith)) ∙ e) in
    let ey = some-injective _ _ (sym (slice_within b (off + n) m (omega arith)) ∙ f) in
    slice_within b off (n + m) (omega arith)
    ∙ ap some (
        take-add n m (drop off b)
        ∙ ap (λ (t : Bytes). take n (drop off b) ++ take m t) (sym (drop-add off n b))
        ∙ ap (λ (t : Bytes). t ++ take m (drop (off + n) b)) ex
        ∙ ap (◌++◌ x) ey)

units_until_nul-zeros : (k : ℕ) → units_until_nul (replicate k 0) ≡ []
unfolding units_until_nul
units_until_nul-zeros zero = refl
units_until_nul-zeros (suc zero) = refl
units_until_nul-zeros (suc (suc k)) = refl

-- The units before the zeros.
units_until_nul-plain :
    (us : List ℕ) (k : ℕ)
    → All IsPlainUnit us
    → units_until_nul (units_to_le us ++ replicate k 0) ≡ us
unfolding units_until_nul units_to_le
units_until_nul-plain [] k h = units_until_nul-zeros k
units_until_nul-plain (u ∷ us) k (hu, h) =
    let more = units_until_nul-plain us k h in
    let e : u % 256 + 256 * (u / 256 % 256) ≡ u = omega (arith, hu) in
    rw (e, more) (ground (arith, hu))

-- A name that fits the 64 bytes of its field, and has no NUL.
pub record FitsField (name : Text) : Type 0 where
  pub plain : All IsPlain name
  pub units : length (encode_utf16 name) ≤ 32

plain-IsScalar : (s : Text) → All IsPlain s → All IsScalar s
plain-IsScalar s h = All-mono (λ (c : ℕ) (p : IsPlain c). p.0) s h

filename_bytes-whole :
    (name : Text) → FitsField name → filename_bytes name ≡ units_to_le (encode_utf16 name)
unfolding filename_bytes
filename_bytes-whole name f =
    take-all 64 (units_to_le (encode_utf16 name))
      (omega (arith, f.units, length-units_to_le (encode_utf16 name)))

decode-filename :
    (name : Text) (k : ℕ)
    → FitsField name
    → decode_utf16le (filename_bytes name ++ replicate k 0) ≡ name
unfolding decode_utf16le
decode-filename name k f =
    rw
      (
        filename_bytes-whole name f,
        units_until_nul-plain (encode_utf16 name) k (encode_utf16-units name f.plain),
      )
      (from_utf16_lossy-encode name (plain-IsScalar name f.plain))

abbrev zeros : ℕ → Bytes
zeros n = replicate n 0

take-zeros : (n t : ℕ) → n ≤ t → take n (zeros t) ≡ zeros n
take-zeros zero t h = refl
take-zeros (suc n) zero h = absurd (omega arith)
take-zeros (suc n) (suc t) h = ap (◌∷◌ 0) (take-zeros n t (omega arith))

slice-zeros : (total k n : ℕ) → k + n ≤ total → slice (zeros total) k n ≡ some (zeros n)
slice-zeros total zero n h =
    slice_within (zeros total) 0 n (omega (arith, length-replicate {A = ℕ} total 0))
    ∙ ap some (take-zeros n total (omega arith))
slice-zeros zero (suc k) n h = absurd (omega arith)
slice-zeros (suc total) (suc k) n h =
    slice_within (zeros (suc total)) (suc k) n (omega (arith, length-replicate {A = ℕ} total 0))
    ∙ sym (slice_within (zeros total) k n (omega (arith, length-replicate {A = ℕ} total 0)))
    ∙ slice-zeros total k n (omega arith)

module _ (spec : HiveSpec) (base bin : Bytes) (i : IsHeader spec 32 (bins_len spec) base) where
  field :
      slice (base ++ bin) 48 64
      ≡ some
          (filename_bytes spec.filename ++ replicate (64 - length (filename_bytes spec.filename)) 0)
  unfolding base_writes
  field =
      let (w0, (w4, (w8, (w12, (w20, (w24, (w28, (w32, (w36, (w40, (w44, w48))))))))))) = i.words in
      let n = length (filename_bytes spec.filename) in
      let small = length-filename_bytes spec.filename in
      let all : n + (64 - n) ≡ 64 = omega (arith, small) in
      slice-append base bin 48 64 (omega (arith, i.len))
      ∙ ap (slice base 48) (sym all)
      ∙ slice-join base _ _ 48 n (64 - n) (omega (arith, i.len, small)) w48.0 (
          i.zeros (48 + n) (64 - n) (omega arith) (omega (arith, small))
          ∙ slice-zeros 4096 (48 + n) (64 - n) (omega (arith, small)))

read_filename :
    (blob : Bytes) (bb : BaseBlock) (bytes : Bytes)
    → read_fields blob ≡ some bb
    → slice blob 48 64 ≡ some bytes
    → bb.filename ≡ decode_utf16le bytes
unfolding read_fields fields_with
read_filename blob bb bytes e f = elim (Option-cases (rd_u32 blob 4)) [
  | inl p ↦ let q = e in absurd (cc (rw p at q))
  | inr (v, p) ↦
      let q = e in
      let same : fields_with blob v ≡ bb = some-injective _ _ (rw p at q) in
      sym (ap (λ (t : BaseBlock). t.filename) same) ∙ rw f refl
]

-- A file name without NUL, of 32 UTF-16 units at most, is read back whole from the built hive, so the
-- type of the hive is sniffed from the name in the spec.
pub parse-build_filename :
    (spec : HiveSpec) (blob : Bytes) (root : Option Text)
    → IsSpec spec
    → FitsField spec.filename
    → build spec ≡ some blob
    → (bb : BaseBlock) × ((parse blob).0 ≡ some bb)
      × (bb.filename ≡ spec.filename)
      × (hive_type bb root ≡ sniff spec.filename root)
unfolding hive_type
parse-build_filename spec blob root h f e =
    let i = built spec blob h e in
    let long : 4096 ≤ length (i.base ++ i.bin) =
      omega (arith, length-append i.base i.bin, i.header.len) in
    let (bb, read, _, p) =
      parse_whole (i.base ++ i.bin) long (signed spec h i.base i.bin i.header) in
    let name : bb.filename ≡ spec.filename =
      read_filename (i.base ++ i.bin) bb _ read (field spec i.base i.bin i.header)
      ∙ decode-filename spec.filename (64 - length (filename_bytes spec.filename)) f in
    (
      bb,
      ap (λ (t : Bytes). (parse t).0) i.parts ∙ ap (λ t. t.0) p,
      name,
      ap (λ (t : Text). sniff t root) name,
    )
