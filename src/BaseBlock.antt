-- ===== src/BaseBlock.antt =====
-- The parser of the regf base block, crates/reghive-core/src/baseblock.rs: the header fields and the
-- classification of a blob. The proofs are in the modules below.
pub mod Kinds
pub mod Sniff
pub mod Checksum
pub mod Reads
pub mod Classes
pub mod Times
use Kinds.{WellFormedKind, ok, truncated, short_base_block, bad_signature, not_a_hive}
use Kinds.{bad_checksum, bin_size_overrun}
use Sniff.{HiveType, sniff}
use Checksum.{checksum_offset, xor32_checksum}
use vgi_reghive.Base.{ℕ, ◌+◌, ◌*◌, ◌/◌, Bool, true, false, not, ◌&&◌, ◌||◌, Option, none, some}
use vgi_reghive.Base.{[], ◌∷◌, Bytes, Text, codes, length, take, slice, ltb, leb, ◌==◌}
use vgi_reghive.Base.{if◌then◌else◌, unwrap_or, ◌>>=◌, List}
use vgi_reghive.Base.Words.{from_le}
use vgi_reghive.Base.Int.{ℤ, pos, as_i32, as_i64, sat_sub_i64}
use vgi_reghive.Base.Utf16.{from_utf16_lossy}
use vgi_reghive.Base.Strings.{text_eq}
use mathlib.Core.Option

abbrev pub regf_signature : Bytes
regf_signature = codes "regf"

abbrev pub base_block_len : ℕ
base_block_len = 4096

pub record BaseBlock : Type 0 where
  pub primary_seq : ℕ
  pub secondary_seq : ℕ
  pub last_written_filetime : ℕ
  pub major : ℕ
  pub minor : ℕ
  pub file_type : ℕ
  pub root_cell_offset_relative : ℤ
  pub hive_bins_data_size : ℕ
  pub filename : Text
  pub checksum_stored : ℕ
  pub checksum_computed : ℕ

unfoldable pub checksum_bad : BaseBlock → Bool
checksum_bad b = not (b.checksum_stored == b.checksum_computed)

unfoldable pub is_dirty : BaseBlock → Bool
unfolding checksum_bad
is_dirty b = checksum_bad b || not (b.primary_seq == b.secondary_seq)

unfoldable pub hive_type : BaseBlock → Option Text → HiveType
hive_type b root_key_name = sniff b.filename root_key_name

unfoldable pub rd_u32 : Bytes → ℕ → Option ℕ
rd_u32 b off = Option.map from_le (slice b off 4)

unfoldable pub rd_i32 : Bytes → ℕ → Option ℤ
unfolding rd_u32
rd_i32 b off = Option.map as_i32 (rd_u32 b off)

unfoldable pub rd_u64 : Bytes → ℕ → Option ℕ
rd_u64 b off = Option.map from_le (slice b off 8)

abbrev pub epoch_diff_micros : ℕ
epoch_diff_micros = 11_644_473_600 * 1_000_000

unfoldable pub filetime_to_unix_micros : ℕ → ℤ
filetime_to_unix_micros ft = sat_sub_i64 (as_i64 (ft / 10)) (pos epoch_diff_micros)

-- The units before the first NUL; a last odd byte is no unit.
unfoldable pub units_until_nul : Bytes → List ℕ
units_until_nul [] = []
units_until_nul (a ∷ []) = []
units_until_nul (a ∷ b ∷ rest) =
    let more = units_until_nul rest in let u = a + 256 * b in if u == 0 then [] else u ∷ more

unfoldable pub decode_utf16le : Bytes → Text
decode_utf16le bytes = from_utf16_lossy (units_until_nul bytes)

-- The fields behind the first, each defaulted where the blob ends before it.
unfoldable pub fields_with : Bytes → ℕ → BaseBlock
fields_with blob primary_seq = record {
  primary_seq = primary_seq;
  secondary_seq = unwrap_or (rd_u32 blob 8) 0;
  last_written_filetime = unwrap_or (rd_u64 blob 12) 0;
  major = unwrap_or (rd_u32 blob 20) 0;
  minor = unwrap_or (rd_u32 blob 24) 0;
  file_type = unwrap_or (rd_u32 blob 28) 0;
  root_cell_offset_relative = unwrap_or (rd_i32 blob 36) (pos 0);
  hive_bins_data_size = unwrap_or (rd_u32 blob 40) 0;
  filename = unwrap_or (Option.map decode_utf16le (slice blob 48 64)) [];
  checksum_stored = unwrap_or (rd_u32 blob checksum_offset) 0;
  checksum_computed = unwrap_or (xor32_checksum blob) 0;
}

unfoldable pub read_fields : Bytes → Option BaseBlock
unfolding fields_with
read_fields blob = do primary_seq ← rd_u32 blob 4; some (fields_with blob primary_seq)

-- The tests on a full header, in the order of the code.
unfoldable pub classify : Bytes → BaseBlock → WellFormedKind
unfolding checksum_bad
classify blob bb =
    if not (bb.file_type == 0)
    then not_a_hive
    else if ltb 0 bb.hive_bins_data_size
        && ltb (length blob) (base_block_len + bb.hive_bins_data_size)
    then bin_size_overrun
    else if checksum_bad bb
    then bad_checksum
    else ok

classify_read : Bytes → Option BaseBlock → Option BaseBlock × WellFormedKind
classify_read blob none = (none, short_base_block)
classify_read blob (some bb) = (some bb, classify blob bb)

unfoldable pub parse : Bytes → Option BaseBlock × WellFormedKind
unfolding classify_read
parse blob =
    if ltb (length blob) 4
    then (none, truncated)
    else if not (text_eq (take 4 blob) regf_signature)
    then (none, bad_signature)
    else if ltb (length blob) base_block_len
    then (read_fields blob, short_base_block)
    else classify_read blob (read_fields blob)
