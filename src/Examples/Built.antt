-- ===== src/Examples/Built.antt =====
-- A built hive with a subkey and a deleted key, and what the parser says of it.
use vgi_reghive.Base.Strings.{text_eq}
use vgi_reghive.Base.{◌&&◌, not, replicate, ◌++◌, ℕ, ◌+◌, ◌≡◌, refl, arith, true, none, some, []}
use vgi_reghive.Base.{◌∷◌, length, slice, All, Bytes, codes, map}
use vgi_reghive.Examples.Samples.{sample_notatin}
use vgi_reghive.Scalar.WellFormed.{well_formed_row}
use vgi_reghive.Scalar.HiveInfo.{HiveInfoRow, hive_info_row}
use vgi_reghive.Scalar.LogsApplied.{LogsAppliedRow}
use vgi_reghive.Scalar.Answers.{answer_of}
use vgi_reghive.Scalar.Built.{probes-build, Tells, logs_of}
use vgi_reghive.HiveGen.Build.Tree.{read_key-build}
use vgi_reghive.HiveGen.Reader.{IsKey, read_key, tree_of, depth}
use vgi_reghive.HiveGen.Layout.{new_layout, key_values, layout_key, layout_orphans, layout_orphan}
use vgi_reghive.HiveGen.Layout.{layout_value, layout_values, layout_value_list, orphan_value}
use vgi_reghive.HiveGen.Layout.{orphan_values, orphan_value_list, layout_lf, lf_entries}
use vgi_reghive.HiveGen.Layout.{offset_list, emit, reserve, place, nk_cell}
use vgi_reghive.HiveGen.Layout.ReadBack.{AllStand}
use vgi_reghive.Base.Utf8.{as_bytes}
use vgi_reghive.Base.Utf16.{encode_utf16}
use vgi_reghive.BaseBlock.{BaseBlock, parse, is_dirty, hive_type}
use vgi_reghive.BaseBlock.Kinds.{ok}
use vgi_reghive.BaseBlock.Sniff.{sniff}
use vgi_reghive.HiveGen.Spec.{HiveSpec, ValueSpec, new_key, new_hive, with_value, with_subkey}
use vgi_reghive.HiveGen.Spec.{dirty, key_last_written, key_name}
use vgi_reghive.HiveGen.Cells.{alloc_cell, free_cell, nk_payload, vk_payload, cell_with_sign}
use vgi_reghive.Base.Words.{to_le}
use vgi_reghive.HiveGen.Layout.Tiles.{Tiles}
use vgi_reghive.HiveGen.Layout.Keys.{key_space}
use vgi_reghive.HiveGen.Build.{build, whole_layout}
use vgi_reghive.HiveGen.Build.Bin.{hive_space, whole_layout-Tiles}
use vgi_reghive.HiveGen.Build.RoundTrip.{IsSpec, bins_len, build_total, build-cells}
use vgi_reghive.HiveGen.Build.Parsed.{Shows, verdict, asks_dirty, parse-build}
use vgi_reghive.HiveGen.Build.Filename.{FitsField, parse-build_filename}

abbrev long_value : ValueSpec
long_value = record { name = codes "A"; type_raw = 3; bytes = 1 ∷ 2 ∷ 3 ∷ 4 ∷ 5 ∷ [] }

abbrev short_value : ValueSpec
short_value = record { name = []; type_raw = 4; bytes = 1 ∷ 2 ∷ [] }

abbrev plain_hive : HiveSpec
plain_hive = new_hive (codes "SYSTEM") (
    with_subkey (with_value (new_key (codes "ROOT")) long_value)
      (with_value (new_key (codes "SUB")) short_value))

abbrev small_hive : HiveSpec
small_hive =
    dirty
      (record plain_hive { deleted_orphans = with_value (new_key (codes "GONE")) long_value ∷ [] })

small_hive_space : hive_space small_hive ≡ 424
unfolding new_hive dirty with_subkey with_value new_key key_space as_bytes key_name key_values
small_hive_space = refl

small_hive-IsSpec : IsSpec small_hive
unfolding new_hive dirty with_subkey with_value new_key key_last_written
small_hive-IsSpec = record {
  primary = omega arith;
  secondary = omega arith;
  minor = omega arith;
  written = omega arith;
  space = omega (arith, small_hive_space);
}

small_hive-FitsField : FitsField small_hive.filename
unfolding new_hive dirty encode_utf16
small_hive-FitsField = record { plain = ground arith; units = omega arith }

abbrev small_blob : Bytes
small_blob = (build_total small_hive small_hive-IsSpec).0

small_blob-build : build small_hive ≡ some small_blob
small_blob-build = (build_total small_hive small_hive-IsSpec).1

whole_layout-Tiles_example :
    Tiles 32 (whole_layout small_hive).0.next (whole_layout small_hive).0.cells
    × ((whole_layout small_hive).0.next ≡ 32 + hive_space small_hive)
whole_layout-Tiles_example = whole_layout-Tiles small_hive (omega (arith, small_hive_space))

build_total_example :
    (blob : Bytes) × (build small_hive ≡ some blob) × (length blob ≡ 4096 + bins_len small_hive)
build_total_example = build_total small_hive small_hive-IsSpec

build-cells_example :
    All
      (λ (c : ℕ × Bytes). slice small_blob (4096 + c.0) (length c.1) ≡ some c.1)
      (whole_layout small_hive).0.cells
build-cells_example = build-cells small_hive small_blob small_hive-IsSpec small_blob-build

parse-build_example :
    (bb : BaseBlock) × (parse small_blob ≡ (some bb, verdict small_hive))
    × Shows small_hive bb
    × (is_dirty bb ≡ asks_dirty small_hive)
parse-build_example = parse-build small_hive small_blob small_hive-IsSpec small_blob-build

parse-build_filename_example :
    (bb : BaseBlock) × ((parse small_blob).0 ≡ some bb)
    × (bb.filename ≡ small_hive.filename)
    × (hive_type bb none ≡ sniff small_hive.filename none)
parse-build_filename_example =
    parse-build_filename small_hive small_blob none small_hive-IsSpec small_hive-FitsField
      small_blob-build

small_hive_asks : (verdict small_hive ≡ ok) × (asks_dirty small_hive ≡ true)
unfolding dirty new_hive
small_hive_asks = (refl, refl)

-- The offsets and sizes of the cells, in the order of their placing: a key stands before what belongs
-- to it, and is placed behind it; the last four are the deleted key's.
small_hive_cells :
    map {B = ℕ × ℕ} (λ (c : ℕ × Bytes). (c.0, length c.1)) (whole_layout small_hive).0.cells
    ≡ (120, 16)
      ∷ (136, 32)
      ∷ (168, 8)
      ∷ (264, 24)
      ∷ (288, 8)
      ∷ (176, 88)
      ∷ (296, 16)
      ∷ (32, 88)
      ∷ (312, 16)
      ∷ (328, 32)
      ∷ (360, 8)
      ∷ (368, 88)
      ∷ []
unfolding whole_layout layout_key layout_orphans layout_orphan layout_value layout_values
    layout_value_list orphan_value orphan_values orphan_value_list layout_lf lf_entries offset_list
    emit reserve place nk_cell alloc_cell free_cell nk_payload vk_payload to_le as_bytes dirty
    new_hive with_subkey with_value new_key key_name key_last_written key_values cell_with_sign
small_hive_cells = refl

-- A blob with the two cells of a value.
abbrev value_blob : Bytes
value_blob =
    replicate 4096 0
    ++ (replicate 32 0 ++ (alloc_cell long_value.bytes ++ alloc_cell (vk_payload long_value 5 32)))

value_blob-AllStand : AllStand value_blob (layout_value new_layout long_value).0
unfolding layout_value emit alloc_cell vk_payload as_bytes to_le slice cell_with_sign
value_blob-AllStand = (refl, (refl, tt))

small_hive-IsKey : IsKey small_hive.root
unfolding new_hive dirty with_subkey with_value new_key as_bytes IsKey
small_hive-IsKey = (
  omega arith,
  (
    omega arith,
    (
      omega arith,
      (
        (
          (
            record { type_raw = omega arith; small = omega arith; bytes = ground arith },
            omega arith,
          ),
          tt,
        ),
        (
          (
            omega arith,
            (
              omega arith,
              (
                omega arith,
                (
                  (
                    (
                      record { type_raw = omega arith; small = omega arith; bytes = ground arith },
                      omega arith,
                    ),
                    tt,
                  ),
                  tt,
                ),
              ),
            ),
          ),
          tt,
        ),
      ),
    ),
  ),
)

read_key-build_example : read_key 2 small_blob 32 ≡ some (tree_of small_hive.root)
unfolding new_hive dirty with_subkey with_value new_key depth
read_key-build_example =
    read_key-build small_hive small_blob 2 small_hive-IsSpec small_hive-IsKey (omega arith)
      small_blob-build

probes-build_example :
    ((well_formed_row sample_notatin (some small_blob)).ok ≡ some true)
    × ((r : HiveInfoRow) × (hive_info_row sample_notatin (some small_blob) ≡ some r)
        × Tells small_hive r)
    × ((a : LogsAppliedRow) × (answer_of (some small_blob, some (codes "HvLE"), none) ≡ some a)
        × (a.applied
            ≡ (true && not (text_eq (logs_of (some (codes "HvLE")) none).fmt (codes "none")))))
unfolding new_hive dirty
probes-build_example =
    probes-build sample_notatin small_hive small_blob (some (codes "HvLE")) none small_hive-IsSpec
      small_blob-build
