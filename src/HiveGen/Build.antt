-- ===== src/HiveGen/Build.antt =====
-- `build` of crates/reghive-core/src/hivegen.rs; `none` is the panic of a copy out of range.
pub mod Bin
pub mod Header
pub mod RoundTrip
pub mod Root
pub mod Tree
pub mod Parsed
pub mod Filename
use vgi_reghive.Base.{ℕ, ◌+◌, ◌-◌, ◌*◌, ◌/◌, max, Bool, true, Option, some, List, [], ◌∷◌, ◌++◌}
use vgi_reghive.Base.{ltb, if◌then◌else◌, unwrap_or, ◌>>=◌, take, replicate, Bytes, Text, codes}
use vgi_reghive.HiveGen.Layout.{Layout, new_layout, layout_key, layout_orphans}
use Prim.Native.Nat.{bit_xor}
use vgi_reghive.HiveGen.Spec.{HiveSpec, key_last_written}
use vgi_reghive.HiveGen.Cells.{as_u32}
use vgi_reghive.BaseBlock.Checksum.{xor32_checksum, checksum_offset}
use vgi_reghive.Base.Writes.{write_each, write_at}
use vgi_reghive.Base.Words.{to_le}
use vgi_reghive.Base.Utf16.{units_to_le, encode_utf16}
use vgi_reghive.BaseBlock.{regf_signature, base_block_len}

unfoldable pub whole_layout : HiveSpec → Layout × ℕ
whole_layout spec =
    let (lay, root_off) = layout_key spec.root new_layout 0 true in
    (layout_orphans lay spec.deleted_orphans, root_off)

-- `used.div_ceil(4096) * 4096`, and 8192 at least.
unfoldable pub hbin_size : ℕ → ℕ
hbin_size used = max (as_u32 ((used + 4095) / 4096 * 4096)) 8192

-- The copies into the bin, in their order: its header, the cells, and the size of the free cell
-- behind them.
unfoldable pub hbin_writes : Layout → List (ℕ × Bytes)
hbin_writes lay =
    let size = hbin_size lay.next in
    ((0, codes "hbin") ∷ (4, to_le 4 0) ∷ (8, to_le 4 size) ∷ lay.cells)
    ++ (if ltb lay.next size then (lay.next, to_le 4 (size - lay.next)) ∷ [] else [])

unfoldable pub hbin_of : Layout → Option Bytes
unfolding hbin_writes
hbin_of lay = write_each (replicate (hbin_size lay.next) 0) (hbin_writes lay)

-- The name in UTF-16, cut at 64 bytes.
unfoldable pub filename_bytes : Text → Bytes
filename_bytes filename = take 64 (units_to_le (encode_utf16 filename))

-- The copies into the base block, before the checksum, in their order.
unfoldable pub base_writes : HiveSpec → ℕ → ℕ → List (ℕ × Bytes)
base_writes spec root_off size =
    (0, regf_signature)
    ∷ (4, to_le 4 spec.primary_seq)
    ∷ (8, to_le 4 spec.secondary_seq)
    ∷ (12, to_le 8 (key_last_written spec.root))
    ∷ (20, to_le 4 1)
    ∷ (24, to_le 4 spec.minor)
    ∷ (28, to_le 4 0)
    ∷ (32, to_le 4 1)
    ∷ (36, to_le 4 root_off)
    ∷ (40, to_le 4 size)
    ∷ (44, to_le 4 1)
    ∷ (48, filename_bytes spec.filename)
    ∷ []

unfoldable pub stored_checksum : Bool → Bytes → ℕ
stored_checksum corrupt base =
    let checksum = unwrap_or (xor32_checksum base) 0 in
    if corrupt then bit_xor checksum 0xff else checksum

unfoldable pub base_block : HiveSpec → ℕ → ℕ → Option Bytes
unfolding base_writes stored_checksum
base_block spec root_off size = do
  base ← write_each (replicate base_block_len 0) (base_writes spec root_off size)
  write_at base checksum_offset (to_le 4 (stored_checksum spec.corrupt_checksum base))

unfoldable pub build : HiveSpec → Option Bytes
build spec = do
  let (lay, root_off) = whole_layout spec
  hbin ← hbin_of lay
  base ← base_block spec root_off (hbin_size lay.next)
  some (base ++ hbin)
