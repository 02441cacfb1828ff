-- ===== src/BaseBlock/Reads.antt =====
-- The header fields as reads of the blob, within and beyond its end.
use vgi_reghive.Base.{ℕ, ◌+◌, ◌≤◌, ◌<◌, ◌≡◌, refl, arith, Option, none, some, ◌++◌, Bytes, length}
use vgi_reghive.Base.{take, drop, slice_within, slice_beyond, slice-append, unwrap_or, ◌^◌}
use vgi_reghive.Base.{slice-append_skip, ap, ◌∙◌, sym, take-append, length-append}
use vgi_reghive.Base.Words.{from_le, to_le, from_le-to_le, length-to_le}
use vgi_reghive.Base.Int.{pos, as_i32}
use vgi_reghive.BaseBlock.Checksum.{xor32_checksum_total, xor32_checksum, xor32_checksum-append}
use vgi_reghive.BaseBlock.Checksum.{checksum_offset}
use vgi_reghive.BaseBlock.{BaseBlock, read_fields, fields_with, rd_u32, rd_i32, rd_u64}

-- Within the bounds a read gives the word that stands there.
pub rd_u32_within :
    (b : Bytes) (off : ℕ) → off + 4 ≤ length b → rd_u32 b off ≡ some (from_le (take 4 (drop off b)))
unfolding rd_u32
rd_u32_within b off h = rw (slice_within b off 4 h)

pub rd_u32_beyond : (b : Bytes) (off : ℕ) → length b < off + 4 → rd_u32 b off ≡ none
unfolding rd_u32
rd_u32_beyond b off h = rw (slice_beyond b off 4 h)

pub rd_u32-append :
    (b more : Bytes) (off : ℕ) → off + 4 ≤ length b → rd_u32 (b ++ more) off ≡ rd_u32 b off
unfolding rd_u32
rd_u32-append b more off h = rw (slice-append b more off 4 h)

pub rd_u64-append :
    (b more : Bytes) (off : ℕ) → off + 8 ≤ length b → rd_u64 (b ++ more) off ≡ rd_u64 b off
unfolding rd_u64
rd_u64-append b more off h = rw (slice-append b more off 8 h)

-- Behind the first 512 bytes nothing is read.
pub read_fields-append : (b more : Bytes) → 512 ≤ length b → read_fields (b ++ more) ≡ read_fields b
unfolding read_fields rd_i32
read_fields-append b more h = simp (
  rd_u32-append b more 4 (omega arith),
  rd_u32-append b more 8 (omega arith),
  rd_u64-append b more 12 (omega arith),
  rd_u32-append b more 20 (omega arith),
  rd_u32-append b more 24 (omega arith),
  rd_u32-append b more 28 (omega arith),
  rd_u32-append b more 36 (omega arith),
  rd_u32-append b more 40 (omega arith),
  slice-append b more 48 64 (omega arith),
  rd_u32-append b more 508 (omega arith),
  xor32_checksum-append b more (omega arith),
)

-- Each field of `bb` is the word that stands at its offset in the blob.
pub record Reads (blob : Bytes) (bb : BaseBlock) : Type 0 where
  pub primary : rd_u32 blob 4 ≡ some bb.primary_seq
  pub secondary : rd_u32 blob 8 ≡ some bb.secondary_seq
  pub written : rd_u64 blob 12 ≡ some bb.last_written_filetime
  pub major : rd_u32 blob 20 ≡ some bb.major
  pub minor : rd_u32 blob 24 ≡ some bb.minor
  pub file_type : rd_u32 blob 28 ≡ some bb.file_type
  pub root : rd_i32 blob 36 ≡ some bb.root_cell_offset_relative
  pub bins : rd_u32 blob 40 ≡ some bb.hive_bins_data_size
  pub stored : rd_u32 blob checksum_offset ≡ some bb.checksum_stored
  pub computed : xor32_checksum blob ≡ some bb.checksum_computed

unwrap_some {ℓ} : {A : Type ℓ} (o : Option A) (a d : A) → o ≡ some a → o ≡ some (unwrap_or o d)
unwrap_some none a d e = cc
unwrap_some (some b) a d e = refl

word_there :
    (b : Bytes) (off : ℕ) → off + 4 ≤ length b → rd_u32 b off ≡ some (unwrap_or (rd_u32 b off) 0)
word_there b off h = unwrap_some (rd_u32 b off) _ 0 (rd_u32_within b off h)

-- From a blob of 512 bytes at least, `read_fields` reads each number at its offset, and defaults
-- none.
pub read_fields-Reads :
    (blob : Bytes)
    → 512 ≤ length blob
    → (bb : BaseBlock) × (read_fields blob ≡ some bb) × Reads blob bb
unfolding read_fields
read_fields-Reads blob h = (
  fields_with blob (from_le (take 4 (drop 4 blob))),
  rw (rd_u32_within blob 4 (omega arith)),
  record {
    primary = rd_u32_within blob 4 (omega arith);
    secondary = word_there blob 8 (omega arith);
    written =
        unfold rd_u64 in
        unwrap_some (rd_u64 blob 12) (from_le (take 8 (drop 12 blob))) 0
          (rw (slice_within blob 12 8 (omega arith)));
    major = word_there blob 20 (omega arith);
    minor = word_there blob 24 (omega arith);
    file_type = word_there blob 28 (omega arith);
    root =
        unfold rd_i32 in
        unwrap_some (rd_i32 blob 36) (as_i32 (from_le (take 4 (drop 36 blob)))) (pos 0)
          (rw (rd_u32_within blob 36 (omega arith)));
    bins = word_there blob 40 (omega arith);
    stored = word_there blob checksum_offset (omega arith);
    computed = unwrap_some _ _ 0 (xor32_checksum_total blob (omega arith));
  },
)

-- Reads behind a prefix, and behind a word, are reads of what follows.
pub rd_u32-skip :
    (front back : Bytes) (off : ℕ) → rd_u32 (front ++ back) (length front + off) ≡ rd_u32 back off
unfolding rd_u32
rd_u32-skip front back off = rw (slice-append_skip front back off 4)

pub rd_u32-behind :
    (front back : Bytes) (n off : ℕ)
    → length front ≡ n
    → rd_u32 (front ++ back) (off + n) ≡ rd_u32 back off
rd_u32-behind front back n off h =
    ap (rd_u32 (front ++ back)) (let e : off + n ≡ length front + off = omega arith in e)
    ∙ rd_u32-skip front back off

pub rd_u32-word : (v : ℕ) (back : Bytes) → v < 2 ^ 32 → rd_u32 (to_le 4 v ++ back) 0 ≡ some v
unfolding rd_u32
rd_u32-word v back h =
    rw
      (slice_within (to_le 4 v ++ back) 0 4
        (omega (arith, length-append (to_le 4 v) back, length-to_le 4 v)))
      (ap some (ap from_le (front_word v back) ∙ from_le-to_le 4 v h))
  where
    front_word : (v : ℕ) (back : Bytes) → take 4 (to_le 4 v ++ back) ≡ to_le 4 v
    front_word v back =
        ap (λ (n : ℕ). take n (to_le 4 v ++ back)) (sym (length-to_le 4 v))
        ∙ take-append (to_le 4 v) back
