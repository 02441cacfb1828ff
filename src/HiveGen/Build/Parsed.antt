-- ===== src/HiveGen/Build/Parsed.antt =====
-- The parser of the base block on a built blob: verdict, fields and dirtiness are those of the spec.
use vgi_reghive.Base.{ℕ, ◌+◌, ◌^◌, ◌≤◌, ◌<◌, ◌≡◌, refl, sym, ap, ◌∙◌, ◌≢◌, ◌↔◌, Bool, true, false}
use vgi_reghive.Base.{not, ◌||◌, some, ◌++◌, arith, ◌==◌, if◌then◌else◌, length, slice}
use vgi_reghive.Base.{slice_within, slice-append, length-append, Bytes}
use vgi_reghive.HiveGen.Spec.{HiveSpec, key_last_written}
use vgi_reghive.HiveGen.Build.{build, base_writes, stored_checksum}
use vgi_reghive.HiveGen.Build.Header.{IsHeader}
use vgi_reghive.HiveGen.Build.RoundTrip.{IsSpec, built, bins_len}
use vgi_reghive.BaseBlock.{BaseBlock, parse, classify, is_dirty, checksum_bad, rd_u32, rd_u64}
use vgi_reghive.BaseBlock.{rd_i32}
use vgi_reghive.BaseBlock.Checksum.{xor32_checksum, xor32_checksum-append, xor32_checksum_total}
use vgi_reghive.BaseBlock.Checksum.{xor32_checksum_bounds}
use vgi_reghive.BaseBlock.Classes.{IsSigned, parse_whole}
use vgi_reghive.BaseBlock.Reads.{Reads}
use vgi_reghive.BaseBlock.Kinds.{WellFormedKind, ok, bad_checksum}
use vgi_reghive.Base.Words.{to_le, from_le-to_le, length-to_le}
use vgi_reghive.Base.Int.{pos, as_i32}
use vgi_reghive.Base.Xor.{bit_xor-lt, bit_xor_cancel, bit_xor_comm, zero-bit_xor}
use Prim.Native.Nat.{bit_xor}
use mathlib.Core.Option.{some-injective}

-- What the parser is to read from the blob of a spec.
pub record Shows (spec : HiveSpec) (bb : BaseBlock) : Type 0 where
  pub primary_seq : bb.primary_seq ≡ spec.primary_seq
  pub secondary_seq : bb.secondary_seq ≡ spec.secondary_seq
  pub last_written : bb.last_written_filetime ≡ key_last_written spec.root
  pub major : bb.major ≡ 1
  pub minor : bb.minor ≡ spec.minor
  pub file_type : bb.file_type ≡ 0
  pub root : bb.root_cell_offset_relative ≡ pos 32
  pub bins : bb.hive_bins_data_size ≡ bins_len spec
  pub checksum : (bb.checksum_stored ≡ bb.checksum_computed) ↔ (spec.corrupt_checksum ≡ false)

-- A word in the first 508 bytes of the base block.
module _ (base bin : Bytes) (len : length base ≡ 4096) where
  word_in_front :
      (n off v : ℕ)
      → off + n ≤ 512
      → slice base off (length (to_le n v)) ≡ some (to_le n v)
      → slice (base ++ bin) off n ≡ some (to_le n v)
  word_in_front n off v h e =
      slice-append base bin off n (omega (arith, len))
      ∙ ap (slice base off) (sym (length-to_le n v))
      ∙ e

  read_u32 :
      (off v : ℕ)
      → off + 4 ≤ 512
      → v < 2 ^ 32
      → slice base off (length (to_le 4 v)) ≡ some (to_le 4 v)
      → rd_u32 (base ++ bin) off ≡ some v
  unfolding rd_u32
  read_u32 off v h l e = rw (word_in_front 4 off v h e) (ap some (from_le-to_le 4 v l))

  read_u64 :
      (off v : ℕ)
      → off + 8 ≤ 512
      → v < 2 ^ 64
      → slice base off (length (to_le 8 v)) ≡ some (to_le 8 v)
      → rd_u64 (base ++ bin) off ≡ some v
  unfolding rd_u64
  read_u64 off v h l e = rw (word_in_front 8 off v h e) (ap some (from_le-to_le 8 v l))

  read_i32 :
      (off v : ℕ) → rd_u32 (base ++ bin) off ≡ some v → rd_i32 (base ++ bin) off ≡ some (as_i32 v)
  unfolding rd_i32
  read_i32 off v e = rw e refl

first_offset : as_i32 32 ≡ pos 32
unfolding as_i32
first_offset = refl

-- The mask of a corrupt checksum changes it, within 32 bits.
corrupted : (c : ℕ) → c < 2 ^ 32 → (bit_xor c 255 ≢ c) × (bit_xor c 255 < 2 ^ 32)
corrupted c h = (
  (λ e.
      let z : 255 ≡ 0 = bit_xor_cancel c 255 0 (e ∙ sym (bit_xor_comm c 0 ∙ zero-bit_xor c)) in
      absurd (omega (arith, z))),
  bit_xor-lt 32 c 255 h (omega arith),
)

stored_cases :
    (corrupt : Bool) (base : Bytes) (c : ℕ)
    → xor32_checksum base ≡ some c
    → c < 2 ^ 32
    → (stored_checksum corrupt base < 2 ^ 32)
      × ((stored_checksum corrupt base ≡ c) ↔ (corrupt ≡ false))
unfolding stored_checksum
stored_cases true base c e h =
    rw e ((corrupted c h).1, ((λ q. absurd ((corrupted c h).0 q)), (λ q. cc)))
stored_cases false base c e h = rw e (h, ((λ q. refl), (λ q. refl)))

module _ (spec : HiveSpec) (h : IsSpec spec) (base bin : Bytes)
    (i : IsHeader spec 32 (bins_len spec) base) where
  bins_lt : bins_len spec < 2 ^ 32
  bins_lt = ground (arith, h.space)

  pub signed : IsSigned (base ++ bin)
  unfolding base_writes
  signed = some-injective _ _ (
      sym (slice_within (base ++ bin) 0 4 (omega (arith, length-append base bin, i.len)))
      ∙ slice-append base bin 0 4 (omega (arith, i.len))
      ∙ i.words.0)

  same_checksum : xor32_checksum (base ++ bin) ≡ xor32_checksum base
  same_checksum = xor32_checksum-append base bin (omega (arith, i.len))

  checksum_there : (c : ℕ) × (xor32_checksum base ≡ some c) × (c < 2 ^ 32)
  checksum_there =
      let e = xor32_checksum_total base (omega (arith, i.len)) in
      (_, e, omega (arith, xor32_checksum_bounds base _ i.bytes e))

  Reads-Shows : (bb : BaseBlock) → Reads (base ++ bin) bb → Shows spec bb
  unfolding base_writes
  Reads-Shows bb r =
      let (w0, (w4, (w8, (w12, (w20, (w24, (w28, (w32, (w36, (w40, (w44, w48))))))))))) = i.words in
      let word = read_u32 base bin i.len in
      let (c, e, l) = checksum_there in
      let (sl, sc) = stored_cases spec.corrupt_checksum base c e l in
      let stored : bb.checksum_stored ≡ stored_checksum spec.corrupt_checksum base =
        some-injective _ _ (
          sym r.stored
          ∙ word 508 _ (omega arith) sl (
              ap (slice base 508) (length-to_le 4 (stored_checksum spec.corrupt_checksum base))
              ∙ i.checksum)) in
      let computed : bb.checksum_computed ≡ c =
        some-injective _ _ (sym r.computed ∙ same_checksum ∙ e) in
      record {
        primary_seq = some-injective _ _ (sym r.primary ∙ word 4 _ (omega arith) h.primary w4);
        secondary_seq =
            some-injective _ _ (sym r.secondary ∙ word 8 _ (omega arith) h.secondary w8);
        last_written =
            some-injective _ _
              (sym r.written ∙ read_u64 base bin i.len 12 _ (omega arith) h.written w12);
        major = some-injective _ _ (sym r.major ∙ word 20 1 (omega arith) (omega arith) w20);
        minor = some-injective _ _ (sym r.minor ∙ word 24 _ (omega arith) h.minor w24);
        file_type =
            some-injective _ _ (sym r.file_type ∙ word 28 0 (omega arith) (omega arith) w28);
        root =
            some-injective _ _ (
              sym r.root
              ∙ read_i32 base bin i.len 36 32 (word 36 32 (omega arith) (omega arith) w36))
            ∙ first_offset;
        bins = some-injective _ _ (sym r.bins ∙ word 40 _ (omega arith) bins_lt w40);
        checksum = rw (stored, computed) sc;
      }

-- The verdict and the dirtiness that a spec asks for.
abbrev pub verdict : HiveSpec → WellFormedKind
verdict spec = if spec.corrupt_checksum then bad_checksum else ok

abbrev pub asks_dirty : HiveSpec → Bool
asks_dirty spec = spec.corrupt_checksum || not (spec.primary_seq == spec.secondary_seq)

classify-verdict :
    (spec : HiveSpec) (blob : Bytes) (bb : BaseBlock)
    → length blob ≡ 4096 + bins_len spec
    → Shows spec bb
    → classify blob bb ≡ verdict spec
unfolding classify checksum_bad
classify-verdict spec blob bb len s = ground (arith, s.file_type, s.bins, s.checksum)

is_dirty-asks : (spec : HiveSpec) (bb : BaseBlock) → Shows spec bb → is_dirty bb ≡ asks_dirty spec
unfolding is_dirty checksum_bad
is_dirty-asks spec bb s = ground (arith, s.primary_seq, s.secondary_seq, s.checksum)

-- The parser reads back from a built hive what its spec says: the verdict is `bad_checksum` if the
-- spec asks for a corrupt checksum and `ok` otherwise; the sequence numbers, the time of the last
-- write and the minor version are the spec's, the major version is 1, the root cell is at 32 and the
-- size of the bins is that of the cells in pages; and the hive counts as dirty exactly if the spec
-- corrupts the checksum or its two sequence numbers differ.
pub parse-build :
    (spec : HiveSpec) (blob : Bytes)
    → IsSpec spec
    → build spec ≡ some blob
    → (bb : BaseBlock) × (parse blob ≡ (some bb, verdict spec))
      × Shows spec bb
      × (is_dirty bb ≡ asks_dirty spec)
parse-build spec blob h e =
    let i = built spec blob h e in
    let len : length (i.base ++ i.bin) ≡ 4096 + bins_len spec =
      omega (arith, length-append i.base i.bin, i.header.len, i.bin_len) in
    let (bb, _, r, p) =
      parse_whole (i.base ++ i.bin) (omega (arith, len)) (signed spec h i.base i.bin i.header) in
    let s = Reads-Shows spec h i.base i.bin i.header bb r in
    (
      bb,
      ap parse i.parts
          ∙ p
          ∙ ap (λ (k : WellFormedKind). (some bb, k))
              (classify-verdict spec (i.base ++ i.bin) bb len s),
      s,
      is_dirty-asks spec bb s,
    )
