-- ===== src/HiveGen/Layout/Sizes.antt =====
-- The space that values and keys take, and that the layout takes exactly that much.
use vgi_reghive.Base.{◌==◌, ℕ, ◌+◌, ◌%◌, ◌^◌, ◌≤◌, ◌<◌, ◌≡◌, refl, inl, inr, Bool, true, false}
use vgi_reghive.Base.{arith, ltb, leb, if◌then◌else◌, leb→le, Bool-cases, length}
use vgi_reghive.Base.Utf8.{as_bytes}
use mathlib.Core.Path.{subst}
use Prim.Native.Nat.{bit_or}
use vgi_reghive.HiveGen.Layout.{inline, Layout, emit, layout_value, orphan_value}
use vgi_reghive.HiveGen.Cells.{data_is_resident_mask, as_u32, cell_with_sign, alloc_cell}
use vgi_reghive.HiveGen.Cells.{free_cell, vk_payload}
use vgi_reghive.HiveGen.Spec.{ValueSpec}
use vgi_reghive.HiveGen.Cells.Sizes.{padded, length-vk_payload}
use vgi_reghive.HiveGen.Layout.Tiles.{Extends, Extends-trans, HasRoom, emit-Extends}

abbrev pub name_len : ValueSpec → ℕ
name_len v = length (as_bytes v.name)

-- The `vk` cell, and the data cell where the data are not resident.
abbrev pub value_space : ValueSpec → ℕ
value_space v =
    if leb (length v.bytes) 4
    then padded (20 + name_len v)
    else padded (length v.bytes) + padded (20 + name_len v)

-- Room for a part, and room behind it.
pub room_first : {lay : Layout} {m : ℕ} (n : ℕ) → HasRoom lay (m + n) → HasRoom lay m
room_first n h = record { aligned = h.aligned; room = omega (arith, h.room) }

pub room_rest :
    {lay later : Layout} {m n : ℕ}
    → HasRoom lay (m + n)
    → Extends lay later m
    → m % 8 ≡ 0
    → HasRoom later n
room_rest h e d = record {
  aligned = omega (arith, h.aligned, e.grows);
  room = omega (arith, h.room, e.grows);
}

pub value_space-units : (v : ValueSpec) → value_space v % 8 ≡ 0
value_space-units v = ground arith

module _ (lay : Layout) (v : ValueSpec) (allocated : Bool) where
  vk-Extends :
      (size off : ℕ)
      → HasRoom lay (padded (20 + name_len v))
      → Extends lay
          (emit lay (cell_with_sign (vk_payload v size off) allocated)).0
          (padded (20 + name_len v))
  vk-Extends size off h = emit-Extends lay _ allocated _ (length-vk_payload v size off) h

  -- A data cell and a `vk` cell behind it.
  data_vk-Extends :
      (size : ℕ) (off : ℕ → ℕ)
      → HasRoom lay (padded (length v.bytes) + padded (20 + name_len v))
      → Extends lay
          (emit (emit lay (cell_with_sign v.bytes allocated)).0 (
            cell_with_sign
              (vk_payload v size (off (emit lay (cell_with_sign v.bytes allocated)).1))
              allocated)).0
          (padded (length v.bytes) + padded (20 + name_len v))
  data_vk-Extends size off h =
      let e = emit-Extends lay v.bytes allocated _ refl (room_first _ h) in
      Extends-trans e (
        emit-Extends (emit lay (cell_with_sign v.bytes allocated)).0 _ allocated _
          (length-vk_payload v size (off (emit lay (cell_with_sign v.bytes allocated)).1))
          (room_rest h e (omega arith)))

-- What a resident value comes to, and one with a data cell.
pub layout_value_resident :
    (lay : Layout) (v : ValueSpec)
    → length v.bytes ≤ 4
    → (size : ℕ) × (off : ℕ) × (layout_value lay v ≡ emit lay (alloc_cell (vk_payload v size off)))
unfolding layout_value
layout_value_resident lay v h = elim (Bool-cases (ltb 0 (length v.bytes))) [
  | inl p ↦ (bit_or (as_u32 (length v.bytes)) data_is_resident_mask, inline v.bytes, ground arith)
  | inr p ↦ (0, 0xffff_ffff, ground arith)
]

pub layout_value_apart :
    (lay : Layout) (v : ValueSpec)
    → 4 < length v.bytes
    → length v.bytes < 2 ^ 32
    → layout_value lay v
      ≡ emit
          (emit lay (alloc_cell v.bytes)).0
          (alloc_cell (vk_payload v (as_u32 (length v.bytes)) (emit lay (alloc_cell v.bytes)).1))
unfolding layout_value
layout_value_apart lay v h k = ground arith

orphan_value_resident :
    (lay : Layout) (v : ValueSpec)
    → length v.bytes ≤ 4
    → (size : ℕ) × (off : ℕ) × (orphan_value lay v ≡ emit lay (free_cell (vk_payload v size off)))
unfolding orphan_value
orphan_value_resident lay v h = (
  if as_u32 (length v.bytes) == 0
      then 0
      else bit_or (as_u32 (length v.bytes)) data_is_resident_mask,
  inline v.bytes,
  ground arith,
)

orphan_value_apart :
    (lay : Layout) (v : ValueSpec)
    → 4 < length v.bytes
    → length v.bytes < 2 ^ 32
    → orphan_value lay v
      ≡ emit
          (emit lay (free_cell v.bytes)).0
          (free_cell (vk_payload v (as_u32 (length v.bytes)) (emit lay (free_cell v.bytes)).1))
unfolding orphan_value
orphan_value_apart lay v h k = ground arith

module _ (lay : Layout) (v : ValueSpec) (h : HasRoom lay (value_space v)) where
  small_space : leb (length v.bytes) 4 ≡ true → value_space v ≡ padded (20 + name_len v)
  small_space e = rw e

  large_space :
      leb (length v.bytes) 4 ≡ false
      → value_space v ≡ padded (length v.bytes) + padded (20 + name_len v)
  large_space e = rw e

  pub layout_value-Extends : Extends lay (layout_value lay v).0 (value_space v)
  unfolding alloc_cell
  layout_value-Extends = elim (Bool-cases (leb (length v.bytes) 4)) [
    | inl e ↦
        let (size, off, q) = layout_value_resident lay v (leb→le _ _ e) in
        rw (q, small_space e)
          (vk-Extends lay v true size off (subst (HasRoom lay) (small_space e) h))
    | inr e ↦
        let room = subst (HasRoom lay) (large_space e) h in
        rw (layout_value_apart lay v (ground arith) (omega (arith, room.room)), large_space e)
          (data_vk-Extends lay v true (as_u32 (length v.bytes)) (λ (t : ℕ). t) room)
  ]

  pub orphan_value-Extends : Extends lay (orphan_value lay v).0 (value_space v)
  unfolding free_cell
  orphan_value-Extends = elim (Bool-cases (leb (length v.bytes) 4)) [
    | inl e ↦
        let (size, off, q) = orphan_value_resident lay v (leb→le _ _ e) in
        rw (q, small_space e)
          (vk-Extends lay v false size off (subst (HasRoom lay) (small_space e) h))
    | inr e ↦
        let room = subst (HasRoom lay) (large_space e) h in
        rw (orphan_value_apart lay v (ground arith) (omega (arith, room.room)), large_space e)
          (data_vk-Extends lay v false (as_u32 (length v.bytes)) (λ (t : ℕ). t) room)
  ]
