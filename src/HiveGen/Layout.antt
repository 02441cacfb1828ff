-- ===== src/HiveGen/Layout.antt =====
-- The layout of cells: `Layout` to `layout_orphan`. An offset is given back beside the new layout.
pub mod Tiles
pub mod Sizes
pub mod Lists
pub mod Keys
pub mod Orphans
pub mod ReadBack
use vgi_reghive.Base.{ℕ, ◌+◌, Bool, false, ◌&&◌, List, [], ◌∷◌, ◌++◌, Bytes, Text, codes, length}
use vgi_reghive.Base.{take, replicate, ltb, leb, ◌==◌, if◌then◌else◌}
use vgi_reghive.Base.Words.{from_le, to_le}
use vgi_reghive.Base.Utf8.{as_bytes}
use Prim.Native.Nat.{bit_or}
use vgi_reghive.HiveGen.Spec.{ValueSpec, KeySpec, key, Subkeys, no_keys, and_key, key_name}
use vgi_reghive.HiveGen.Cells.{minus_one, key_comp_name, as_u32, alloc_cell, vk_payload}
use vgi_reghive.HiveGen.Cells.{nk_payload, key_hive_entry, free_cell, data_is_resident_mask}
use vgi_reghive.HiveGen.Cells.{cell_size}

pub record Layout : Type 0 where
  pub cells : List (ℕ × Bytes)
  pub next : ℕ

abbrev pub hbin_header_len : ℕ
hbin_header_len = 32

abbrev pub first_cell_rel : ℕ
first_cell_rel = hbin_header_len

abbrev pub new_layout : Layout
new_layout = record { cells = []; next = first_cell_rel }

unfoldable pub reserve : Layout → ℕ → Layout × ℕ
reserve lay size = (record lay { next = as_u32 (lay.next + size) }, lay.next)

unfoldable pub place : Layout → ℕ → Bytes → Layout
place lay off bytes = record lay { cells = lay.cells ++ (off, bytes) ∷ [] }

unfoldable pub emit : Layout → Bytes → Layout × ℕ
emit lay bytes = (
  record {
    cells = lay.cells ++ (lay.next, bytes) ∷ [];
    next = as_u32 (lay.next + as_u32 (length bytes));
  },
  lay.next,
)

-- `[0u8; 4]` with the data copied to its front, as a word; for four bytes at most.
unfoldable pub inline : Bytes → ℕ
inline bytes = from_le (take 4 (bytes ++ replicate 4 0))

-- The list of offsets, four bytes each.
unfoldable pub offset_list : List ℕ → Bytes
offset_list [] = []
offset_list (off ∷ offs) = to_le 4 off ++ offset_list offs

unfoldable pub layout_value : Layout → ValueSpec → Layout × ℕ
unfolding inline
layout_value lay v =
    let len = as_u32 (length v.bytes) in
    if leb len 4 && ltb 0 len
    then emit lay (alloc_cell (vk_payload v (bit_or len data_is_resident_mask) (inline v.bytes)))
    else if len == 0
    then emit lay (alloc_cell (vk_payload v 0 0xffff_ffff))
    else (let (lay1, data_off) = emit lay (alloc_cell v.bytes) in
        emit lay1 (alloc_cell (vk_payload v len data_off)))

-- The loop over the values: the offsets of their `vk` cells.
unfoldable pub layout_values : Layout → List ValueSpec → Layout × List ℕ
layout_values lay [] = (lay, [])
layout_values lay (v ∷ vs) =
    let (lay1, off) = layout_value lay v in
    let (lay2, offs) = layout_values lay1 vs in (lay2, off ∷ offs)

-- The number of values, and the bits of the offset of their list.
unfoldable pub layout_value_list : Layout → List ValueSpec → Layout × (ℕ × ℕ)
layout_value_list lay [] = (lay, (0, minus_one))
layout_value_list lay (v ∷ vs) =
    let (lay1, offs) = layout_values lay (v ∷ vs) in
    let (lay2, vl_off) = emit lay1 (alloc_cell (offset_list offs)) in
    (lay2, (as_u32 (length (v ∷ vs)), vl_off))

-- The first four bytes of a name, with zeros behind it if it is shorter.
abbrev pub hint : Text → Bytes
hint name = take 4 (as_bytes name ++ replicate 4 0)

unfoldable pub lf_entries : List (ℕ × Text) → Bytes
lf_entries [] = []
lf_entries ((off, name) ∷ child) = to_le 4 off ++ (hint name ++ lf_entries child)

-- The number of subkeys and the offset of the `lf` list, from the offsets and names of the subkeys.
unfoldable pub layout_lf : Layout → List (ℕ × Text) → Layout × (ℕ × ℕ)
unfolding lf_entries
layout_lf lay [] = (lay, (0, 0))
layout_lf lay (c ∷ child) =
    let (lay1, lf_off) =
      emit lay
        (alloc_cell (codes "lf" ++ (to_le 2 (length (c ∷ child)) ++ lf_entries (c ∷ child)))) in
    (lay1, (as_u32 (length (c ∷ child)), lf_off))

abbrev pub key_flags : Bool → ℕ
key_flags is_root = if is_root then bit_or key_comp_name key_hive_entry else key_comp_name

-- The cell of a key whose lists have been laid out.
unfoldable pub nk_cell : KeySpec → Bool → ℕ → ℕ × ℕ → ℕ × ℕ → Bytes
nk_cell k is_root parent_rel (n_values, value_list_off) (n_sub, sub_list_off) =
    alloc_cell
      (nk_payload k (key_flags is_root) parent_rel n_sub sub_list_off n_values value_list_off)

unfoldable mutual
  pub layout_key : KeySpec → Layout → ℕ → Bool → Layout × ℕ
  layout_key (key name last_written values subkeys) lay parent_rel is_root =
      let (lay1, nk_off) =
        reserve lay (cell_size (as_u32 (76 + as_u32 (length (as_bytes name))))) in
      let (lay2, value_list) = layout_value_list lay1 values in
      let (lay3, child) = layout_subkeys subkeys lay2 nk_off in
      let (lay4, sub_list) = layout_lf lay3 child in
      (
        place lay4 nk_off
            (nk_cell (key name last_written values subkeys) is_root parent_rel value_list sub_list),
        nk_off,
      )

  pub layout_subkeys : Subkeys → Layout → ℕ → Layout × List (ℕ × Text)
  layout_subkeys no_keys lay nk_off = (lay, [])
  layout_subkeys (and_key k ks) lay nk_off =
      let (lay1, c_off) = layout_key k lay nk_off false in
      let (lay2, child) = layout_subkeys ks lay1 nk_off in (lay2, (c_off, key_name k) ∷ child)

unfoldable pub orphan_value : Layout → ValueSpec → Layout × ℕ
unfolding inline
orphan_value lay v =
    let len = as_u32 (length v.bytes) in
    if ltb 4 len
    then (let (lay1, data_off) = emit lay (free_cell v.bytes) in
        emit lay1 (free_cell (vk_payload v len data_off)))
    else emit lay (
        free_cell (
          vk_payload v (if len == 0 then 0 else bit_or len data_is_resident_mask) (inline v.bytes)))

unfoldable pub orphan_values : Layout → List ValueSpec → Layout × List ℕ
orphan_values lay [] = (lay, [])
orphan_values lay (v ∷ vs) =
    let (lay1, off) = orphan_value lay v in
    let (lay2, offs) = orphan_values lay1 vs in (lay2, off ∷ offs)

unfoldable pub orphan_value_list : Layout → List ℕ → Layout × (ℕ × ℕ)
orphan_value_list lay [] = (lay, (0, minus_one))
orphan_value_list lay (off ∷ offs) =
    let (lay1, vl) = emit lay (free_cell (offset_list (off ∷ offs))) in
    (lay1, (as_u32 (length (off ∷ offs)), vl))

unfoldable pub key_values : KeySpec → List ValueSpec
key_values (key name last_written values subkeys) = values

unfoldable pub layout_orphan : Layout → KeySpec → Layout
layout_orphan lay k =
    let (lay1, offs) = orphan_values lay (key_values k) in
    let (lay2, (n_values, value_list_off)) = orphan_value_list lay1 offs in
    (emit lay2 (free_cell (nk_payload k key_comp_name 0 0 0 n_values value_list_off))).0

-- `for orphan in &spec.deleted_orphans { … }`
unfoldable pub layout_orphans : Layout → List KeySpec → Layout
layout_orphans lay [] = lay
layout_orphans lay (k ∷ ks) = layout_orphans (layout_orphan lay k) ks
