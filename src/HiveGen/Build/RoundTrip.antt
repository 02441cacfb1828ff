-- ===== src/HiveGen/Build/RoundTrip.antt =====
-- A spec is built without a panic, and the parser reads back from the blob what the spec says.
use vgi_reghive.Base.{All-front, ℕ, ◌+◌, ◌*◌, ◌/◌, ◌^◌, ◌<◌, max, ◌≡◌, refl, sym, ap, ◌∙◌, Bool}
use vgi_reghive.Base.{true, some, List, [], ◌∷◌, ◌++◌, arith, length, replicate, All, slice}
use vgi_reghive.Base.{slice-append_skip, length-append, length-replicate, Bytes}
use vgi_reghive.HiveGen.Spec.{HiveSpec, KeySpec, key, key_last_written}
use vgi_reghive.HiveGen.Cells.{as_u32}
use vgi_reghive.HiveGen.Layout.{Layout, layout_key, new_layout, reserve}
use vgi_reghive.HiveGen.Build.{build, whole_layout, hbin_size, hbin_of, hbin_writes, base_block}
use vgi_reghive.HiveGen.Build.Bin.{hive_space, whole_layout-Tiles, hbin-AllWritten}
use vgi_reghive.HiveGen.Build.Bin.{hive_space-units}
use vgi_reghive.HiveGen.Build.Header.{IsHeader, base_block-IsHeader}
use vgi_reghive.Base.Writes.{AllWritten}
use mathlib.Core.Path.{subst}
use mathlib.Core.Option.{some-injective}

-- A spec whose numbers have the widths of the code, and whose cells come to less than 4 GiB less
-- the header of the bin and one page.
pub record IsSpec (spec : HiveSpec) : Type 0 where
  pub primary : spec.primary_seq < 2 ^ 32
  pub secondary : spec.secondary_seq < 2 ^ 32
  pub minor : spec.minor < 2 ^ 32
  pub written : key_last_written spec.root < 2 ^ 64
  pub space : hive_space spec + 4128 < 2 ^ 32

-- The bins of a spec: a header and its cells, in pages, two at least.
abbrev pub bins_len : HiveSpec → ℕ
bins_len spec = max ((32 + hive_space spec + 4095) / 4096 * 4096) 8192

layout_key-offset :
    (k : KeySpec) (lay : Layout) (parent : ℕ) (is_root : Bool)
    → (layout_key k lay parent is_root).1 ≡ lay.next
unfolding layout_key reserve
layout_key-offset (key name last_written values subkeys) lay parent is_root = refl

root_offset : (spec : HiveSpec) → (whole_layout spec).1 ≡ 32
unfolding whole_layout
root_offset spec = layout_key-offset spec.root new_layout 0 true

-- A blob of a base block and a bin that have all that is copied into them.
pub record IsBuilt (spec : HiveSpec) (blob : Bytes) : Type 0 where
  pub base : Bytes
  pub bin : Bytes
  pub parts : blob ≡ base ++ bin
  pub header : IsHeader spec 32 (bins_len spec) base
  pub bin_len : length bin ≡ bins_len spec
  pub cells :
      All (λ (c : ℕ × Bytes). slice bin c.0 (length c.1) ≡ some c.1) (whole_layout spec).0.cells

module _ (spec : HiveSpec) (h : IsSpec spec) where
  abbrev lay : Layout
  lay = (whole_layout spec).0

  used : lay.next ≡ 32 + hive_space spec
  used = (whole_layout-Tiles spec (omega (arith, h.space))).1

  bins_size : hbin_size lay.next ≡ bins_len spec
  unfolding hbin_size
  bins_size =
      ap (λ (n : ℕ). max (as_u32 ((n + 4095) / 4096 * 4096)) 8192) used ∙ omega (arith, h.space)

  bin_cells :
      (bin : Bytes)
      → AllWritten (replicate (hbin_size lay.next) 0) (hbin_writes lay) bin
      → All (λ (c : ℕ × Bytes). slice bin c.0 (length c.1) ≡ some c.1) lay.cells
  unfolding hbin_writes
  bin_cells bin all =
      let (a0, (a4, (a8, rest))) = all.here in
      All-front (λ (c : ℕ × Bytes). slice bin c.0 (length c.1) ≡ some c.1) lay.cells _ rest

  build_parts :
      (bin base : Bytes)
      → hbin_of lay ≡ some bin
      → base_block spec (whole_layout spec).1 (hbin_size lay.next) ≡ some base
      → build spec ≡ some (base ++ bin)
  unfolding build
  build_parts bin base e f = rw (e, f) refl

  hbin_of_lem :
      (bin : Bytes)
      → AllWritten (replicate (hbin_size lay.next) 0) (hbin_writes lay) bin
      → hbin_of lay ≡ some bin
  unfolding hbin_of
  hbin_of_lem bin all = all.result

  -- The base block has the offset of the root cell and the size of the bins.
  right-IsHeader :
      (base : Bytes)
      → IsHeader spec (whole_layout spec).1 (hbin_size lay.next) base
      → IsHeader spec 32 (bins_len spec) base
  right-IsHeader base i = rw (root_offset spec, bins_size) at i

  pub build-IsBuilt : (blob : Bytes) × (build spec ≡ some blob) × IsBuilt spec blob
  build-IsBuilt =
      let t = whole_layout-Tiles spec (omega (arith, h.space)) in
      let (bin, all) =
        hbin-AllWritten lay t.0 (omega (arith, used, hive_space-units spec))
          (omega (arith, used, h.space)) in
      let (base, e, i) = base_block-IsHeader spec (whole_layout spec).1 (hbin_size lay.next) in
      (
        base ++ bin,
        build_parts bin base (hbin_of_lem bin all) e,
        record {
          base = base;
          bin = bin;
          parts = refl;
          header = right-IsHeader base i;
          bin_len = all.same_length ∙ length-replicate {A = ℕ} (hbin_size lay.next) 0 ∙ bins_size;
          cells = bin_cells bin all;
        },
      )

-- A spec whose numbers have the widths of the code and whose cells come to less than 4 GiB less 4128
-- bytes is built without a panic; the blob is as long as the base block and the bins, which are the
-- header of a bin and the cells, in pages of 4096 bytes, two at least.
pub build_total :
    (spec : HiveSpec)
    → IsSpec spec
    → (blob : Bytes) × (build spec ≡ some blob) × (length blob ≡ 4096 + bins_len spec)
build_total spec h =
    let (blob, e, i) = build-IsBuilt spec h in
    (
      blob,
      e,
      ap length i.parts ∙ omega (arith, length-append i.base i.bin, i.header.len, i.bin_len),
    )

pub built :
    (spec : HiveSpec) (blob : Bytes) → IsSpec spec → build spec ≡ some blob → IsBuilt spec blob
built spec blob h e =
    let (b, f, i) = build-IsBuilt spec h in subst (IsBuilt spec) (some-injective _ _ (sym f ∙ e)) i

cells_behind :
    (base bin : Bytes) (cs : List (ℕ × Bytes))
    → length base ≡ 4096
    → All (λ (c : ℕ × Bytes). slice bin c.0 (length c.1) ≡ some c.1) cs
    → All (λ (c : ℕ × Bytes). slice (base ++ bin) (4096 + c.0) (length c.1) ≡ some c.1) cs
cells_behind base bin [] h a = tt
cells_behind base bin (c ∷ cs) h (e, a) = (
  ap (λ (n : ℕ). slice (base ++ bin) (n + c.0) (length c.1)) (sym h)
      ∙ slice-append_skip base bin c.0 (length c.1)
      ∙ e,
  cells_behind base bin cs h a,
)

-- Every cell that is laid out for the spec stands in the built blob, at its offset from the end of
-- the base block: none has been overwritten, neither by another cell nor by the free cell behind
-- them.
pub build-cells :
    (spec : HiveSpec) (blob : Bytes)
    → IsSpec spec
    → build spec ≡ some blob
    → All
        (λ (c : ℕ × Bytes). slice blob (4096 + c.0) (length c.1) ≡ some c.1)
        (whole_layout spec).0.cells
build-cells spec blob h e =
    let i = built spec blob h e in
    subst
      (λ (b : Bytes).
        All (λ (c : ℕ × Bytes). slice b (4096 + c.0) (length c.1) ≡ some c.1)
          (whole_layout spec).0.cells)
      (sym i.parts) (cells_behind i.base i.bin (whole_layout spec).0.cells i.header.len i.cells)
