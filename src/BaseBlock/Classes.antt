-- ===== src/BaseBlock/Classes.antt =====
-- What the verdict of `parse` says of a blob.
use vgi_reghive.Base.{ℕ, ◌+◌, ◌≤◌, ◌<◌, ◌≡◌, ◌↔◌, ◌⊎◌, sym, ap, ◌∙◌, arith, Option, none, some}
use vgi_reghive.Base.{◌++◌, Bytes, length, take, le→ltb, take-append_within, length-append}
use vgi_reghive.Base.Strings.{text_eq_iff}
use vgi_reghive.BaseBlock.{BaseBlock, parse, read_fields, classify, rd_u32, regf_signature}
use vgi_reghive.BaseBlock.{base_block_len}
use vgi_reghive.BaseBlock.Kinds.{WellFormedKind, ok}
use vgi_reghive.BaseBlock.Checksum.{xor32_checksum, checksum_offset}
use vgi_reghive.BaseBlock.Reads.{Reads, read_fields-Reads, read_fields-append, rd_u32_beyond}
use vgi_reghive.BaseBlock.Reads.{rd_u32_within}
use mathlib.Core.Option.{some-injective}

-- A blob that begins with the signature.
abbrev pub IsSigned : Bytes → Type 0
IsSigned blob = take 4 blob ≡ regf_signature

-- A primary hive, said of the bytes alone: a whole base block, the signature, file type 0, the
-- declared bins within the blob, and a stored checksum that is the computed one.
pub record IsPrimaryHive (blob : Bytes) : Type 0 where
  pub whole : base_block_len ≤ length blob
  pub signed : IsSigned blob
  pub primary : rd_u32 blob 28 ≡ some 0
  pub bins : (size : ℕ) × (rd_u32 blob 40 ≡ some size) × (base_block_len + size ≤ length blob)
  pub checksum : rd_u32 blob checksum_offset ≡ xor32_checksum blob

-- `parse` on a signed blob with a whole base block.
pub parse_whole :
    (blob : Bytes)
    → base_block_len ≤ length blob
    → IsSigned blob
    → (bb : BaseBlock) × (read_fields blob ≡ some bb)
      × Reads blob bb
      × (parse blob ≡ (some bb, classify blob bb))
unfolding parse
parse_whole blob h s =
    let (bb, e, r) = read_fields-Reads blob (omega arith) in
    let signed = (text_eq_iff (take 4 blob) regf_signature).1 s in
    (bb, e, r, rw (e, signed, le→ltb (length blob) 4 (omega arith), le→ltb (length blob) 4096 h))

classify-ok_iff :
    (blob : Bytes) (bb : BaseBlock)
    → base_block_len ≤ length blob
    → (classify blob bb ≡ ok) ↔ (
        (bb.file_type ≡ 0)
        × (base_block_len + bb.hive_bins_data_size ≤ length blob)
        × (bb.checksum_stored ≡ bb.checksum_computed))
unfolding classify
classify-ok_iff blob bb h = ground arith

parse-ok_needs :
    (blob : Bytes) → (parse blob).1 ≡ ok → (base_block_len ≤ length blob) × IsSigned blob
unfolding parse
parse-ok_needs blob e = ground (arith, text_eq_iff (take 4 blob) regf_signature)

-- `parse` gives the verdict `ok` exactly on the primary hives: a whole base block, the signature,
-- file type 0, the declared bins within the blob, and a stored checksum that is the computed one.
pub parse-ok_iff : (blob : Bytes) → ((parse blob).1 ≡ ok) ↔ IsPrimaryHive blob
parse-ok_iff blob = (sound, complete)
  where
    sound : (parse blob).1 ≡ ok → IsPrimaryHive blob
    sound e =
        let (long, s) = parse-ok_needs blob e in
        let (bb, read, r, p) = parse_whole blob long s in
        let (ft, bins, sums) = (classify-ok_iff blob bb long).0 (rw p at e) in
        record {
          whole = long;
          signed = s;
          primary = r.file_type ∙ ap some ft;
          bins = (_, r.bins, bins);
          checksum = r.stored ∙ ap some sums ∙ sym r.computed;
        }

    complete : IsPrimaryHive blob → (parse blob).1 ≡ ok
    complete h =
        let (bb, read, r, p) = parse_whole blob h.whole h.signed in
        rw p (
          (classify-ok_iff blob bb h.whole).1 (
            some-injective _ _ (sym r.file_type ∙ h.primary),
            omega (arith, h.bins.2, some-injective _ _ (sym h.bins.1 ∙ r.bins)),
            some-injective _ _ (sym r.stored ∙ h.checksum ∙ r.computed),
          ))

-- `parse` gives no fields exactly for a blob that is shorter than eight bytes or does not begin
-- with the signature.
pub parse-none_iff :
    (blob : Bytes) → ((parse blob).0 ≡ none) ↔ ((length blob < 8) ⊎ (¬ IsSigned blob))
unfolding parse read_fields
parse-none_iff blob =
    ground
      (arith, text_eq_iff (take 4 blob) regf_signature, rd_u32_beyond blob 4, rd_u32_within blob 4)

-- Bytes behind a blob with the verdict `ok` change neither the fields nor the verdict.
pub parse-append_ok :
    (blob more : Bytes) (bb : BaseBlock)
    → parse blob ≡ (some bb, ok)
    → parse (blob ++ more) ≡ (some bb, ok)
unfolding parse classify
parse-append_ok blob more bb e =
    let (long, s) = parse-ok_needs blob (ap (λ (p : Option BaseBlock × WellFormedKind). p.1) e) in
    ground (
      arith,
      length-append blob more,
      take-append_within 4 blob more (omega arith),
      read_fields-append blob more (omega arith),
    )
