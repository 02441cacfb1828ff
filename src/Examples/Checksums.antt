-- ===== src/Examples/Checksums.antt =====
-- The checksum at concrete inputs.
use vgi_reghive.Base.{ℕ, zero, suc, ◌*◌, ◌<◌, ◌≡◌, refl, ◌≢◌, some, [], ◌∷◌, ◌++◌, arith}
use vgi_reghive.Base.{replicate, All, slice, Bytes, IsByte}
use vgi_reghive.BaseBlock.{BaseBlock, parse, rd_u32, regf_signature, read_fields, fields_with}
use vgi_reghive.BaseBlock.{classify, checksum_bad, decode_utf16le, units_until_nul, rd_u64}
use vgi_reghive.BaseBlock.{rd_i32}
use vgi_reghive.BaseBlock.Kinds
use vgi_reghive.BaseBlock.Checksum.{xor32_checksum, checksum_loop, dword_at, DiffersAt, sentinel}
use vgi_reghive.BaseBlock.Checksum.{xor32_checksum_detects}
use vgi_reghive.Base.Words.{from_le}
use vgi_reghive.Base.Int.{pos, as_i32}
use vgi_reghive.Base.Strings.{text_eq}
use vgi_reghive.Base.Utf16.{from_utf16_lossy}

-- A base block of zeros behind the signature, with its checksum, which is the signature again.
abbrev sound_base : Bytes
sound_base = regf_signature ++ replicate 504 0 ++ regf_signature ++ replicate 3584 0

abbrev zero_fields : BaseBlock
zero_fields = record {
  primary_seq = 0;
  secondary_seq = 0;
  last_written_filetime = 0;
  major = 0;
  minor = 0;
  file_type = 0;
  root_cell_offset_relative = pos 0;
  hive_bins_data_size = 0;
  filename = [];
  checksum_stored = 0x66676572;
  checksum_computed = 0x66676572;
}

parse_sound : parse sound_base ≡ (some zero_fields, Kinds.ok)
unfolding parse read_fields fields_with classify xor32_checksum checksum_loop from_le rd_u32 rd_u64
    rd_i32 slice text_eq sentinel as_i32 decode_utf16le units_until_nul from_utf16_lossy
    checksum_bad
parse_sound = refl

All-replicate : (n b : ℕ) → b < 256 → All IsByte (replicate n b)
All-replicate zero b h = tt
All-replicate (suc n) b h = (h, All-replicate n b h)

ones_sum : xor32_checksum (replicate 508 1) ≡ some 0x01010101
unfolding xor32_checksum checksum_loop from_le sentinel
ones_sum = refl

two_sum : checksum_loop 127 (2 ∷ 0 ∷ 0 ∷ 0 ∷ replicate 504 0) 0 0 ≡ 2
unfolding checksum_loop from_le
two_sum = refl

first_differs : DiffersAt 0 (2 ∷ 0 ∷ 0 ∷ 0 ∷ replicate 504 0) (4 ∷ 0 ∷ 0 ∷ 0 ∷ replicate 504 0)
unfolding from_le
first_differs = (omega arith, other_words)
  where
    other_words :
        (j : ℕ)
        → j < 127
        → j ≢ 0
        → dword_at (2 ∷ 0 ∷ 0 ∷ 0 ∷ replicate 504 0) (4 * j)
          ≡ dword_at (4 ∷ 0 ∷ 0 ∷ 0 ∷ replicate 504 0) (4 * j)
    other_words zero l h = absurd (h refl)
    other_words (suc j) l h =
        let e : 4 * suc j ≡ suc (suc (suc (suc (4 * j)))) = omega arith in rw e

xor32_checksum_detects_example :
    xor32_checksum (2 ∷ 0 ∷ 0 ∷ 0 ∷ replicate 504 0)
    ≢ xor32_checksum (4 ∷ 0 ∷ 0 ∷ 0 ∷ replicate 504 0)
xor32_checksum_detects_example =
    xor32_checksum_detects (2 ∷ 0 ∷ 0 ∷ 0 ∷ replicate 504 0) (4 ∷ 0 ∷ 0 ∷ 0 ∷ replicate 504 0) 0
      (omega arith) (omega arith) (omega arith) first_differs (omega (arith, two_sum))
      (omega (arith, two_sum))
