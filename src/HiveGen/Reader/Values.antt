-- ===== src/HiveGen/Reader/Values.antt =====
-- The values of a key are read back from a blob that has the cells of their layout.
use vgi_reghive.HiveGen.Reader.{values_at, rd_u16, read_offsets, read_name, read_named}
use vgi_reghive.HiveGen.Reader.{read_values, value_entry, IsNamed}
use vgi_reghive.Base.{All-front, ℕ, ◌+◌, ◌*◌, ◌^◌, ◌≤◌, ◌<◌, ◌≡◌, refl, ap, ◌∙◌, inl, inr, true}
use vgi_reghive.Base.{some, List, [], ◌∷◌, map, arith, leb, leb→le, Bool-cases, length, take}
use vgi_reghive.Base.{drop, All, slice, slice_within, Bytes, Text}
use vgi_reghive.Base.Words.{to_le, from_le-to_le}
use vgi_reghive.Base.Utf8.{as_bytes}
use vgi_reghive.HiveGen.Spec.{ValueSpec}
use vgi_reghive.HiveGen.Cells.{cell_with_sign, alloc_cell, vk_payload, name_fields, as_u32}
use vgi_reghive.HiveGen.Cells.Sizes.{length-vk_payload, take-all}
use vgi_reghive.HiveGen.Layout.{Layout, emit, layout_value, layout_values, layout_value_list}
use vgi_reghive.HiveGen.Layout.{offset_list}
use vgi_reghive.HiveGen.Layout.Tiles.{HasRoom}
use vgi_reghive.HiveGen.Layout.Sizes.{value_space, value_space-units, room_first, room_rest}
use vgi_reghive.HiveGen.Layout.Sizes.{layout_value-Extends, layout_value_resident}
use vgi_reghive.HiveGen.Layout.Sizes.{layout_value_apart, name_len}
use vgi_reghive.HiveGen.Layout.Lists.{values_space, value_list_space, layout_values-Extends}
use vgi_reghive.HiveGen.Layout.Lists.{length-layout_values, length-offset_list}
use vgi_reghive.HiveGen.Layout.ReadBack.{Stands, Stands-payload, AllStand, emit-Stands}
use vgi_reghive.HiveGen.Layout.ReadBack.{read_value-layout_value}
use vgi_reghive.HiveGen.Reader.Offsets.{read_offsets_moved, read_offsets-offset_list}
use mathlib.Core.Path.{subst}

-- The `vk` cell of a value is the last one emitted.
abbrev VkStands : Bytes → Layout → ValueSpec → Type 0
VkStands blob lay v =
    (size word : ℕ) × Stands blob
      ((layout_value lay v).1, cell_with_sign (vk_payload v size word) true)

module _ (blob : Bytes) (lay : Layout) (v : ValueSpec) (room : HasRoom lay (value_space v)) where
  emitted_last :
      (before : Layout) (size word : ℕ)
      → layout_value lay v ≡ emit before (alloc_cell (vk_payload v size word))
      → AllStand blob (layout_value lay v).0
      → VkStands blob lay v
  unfolding alloc_cell
  emitted_last before size word e s =
      let q = s in
      let (front, there) =
        emit-Stands blob before (alloc_cell (vk_payload v size word)) (rw e at q) in
      (size, word, rw e there)

  vk_there : AllStand blob (layout_value lay v).0 → VkStands blob lay v
  vk_there s = elim (Bool-cases (leb (length v.bytes) 4)) [
    | inl e ↦
        let (size, word, q) = layout_value_resident lay v (leb→le _ _ e) in
        emitted_last lay size word q s
    | inr e ↦
        emitted_last (emit lay (alloc_cell v.bytes)).0 _ _
          (layout_value_apart lay v (ground arith) (ground (arith, room.room))) s
  ]

name_size : (name : Text) → (name_fields name).0 ≡ length (as_bytes name)
unfolding as_bytes
name_size [] = refl
name_size (c ∷ s) = refl

module _ (blob : Bytes) (v : ValueSpec) (size word off : ℕ)
    (h : length (vk_payload v size word) + 11 < 2 ^ 32)
    (s : Stands blob (off, cell_with_sign (vk_payload v size word) true)) where
  vk_slice :
      (i m : ℕ)
      → i + m ≤ 20 + name_len v
      → slice blob (4096 + off + (4 + i)) m ≡ some (take m (drop i (vk_payload v size word)))
  vk_slice i m k =
      let len = length-vk_payload v size word in
      Stands-payload (vk_payload v size word) true h blob off i m s (omega (arith, len, k))
      ∙ slice_within (vk_payload v size word) i m (omega (arith, len, k))

  read_name_back : name_len v < 2 ^ 16 → read_name blob off ≡ some (as_bytes v.name)
  unfolding read_name rd_u16 vk_payload to_le
  read_name_back k =
      let n = name_size v.name in
      rw (vk_slice 2 2 (omega arith)) (
        ap (λ (t : ℕ). slice blob (4096 + off + 24) t)
          (from_le-to_le 2 (name_fields v.name).0 (omega (arith, n, k)) ∙ n)
        ∙ vk_slice 20 (name_len v) (omega arith)
        ∙ ap some (take-all (name_len v) (as_bytes v.name) (omega arith)))

read_named-layout_value :
    (blob : Bytes) (lay : Layout) (v : ValueSpec)
    → HasRoom lay (value_space v)
    → IsNamed v
    → AllStand blob (layout_value lay v).0
    → read_named blob (layout_value lay v).1 ≡ some (value_entry v)
unfolding read_named
read_named-layout_value blob lay v room (h, short) s =
    let (size, word, there) = vk_there blob lay v room s in
    let len = length-vk_payload v size word in
    rw
      (
        read_name_back blob v size word _ (omega (arith, len, short)) there short,
        read_value-layout_value lay v blob h room s,
      )
      refl

-- The cells of the later values stand behind those of a value.
first_stands :
    (blob : Bytes) (lay : Layout) (v : ValueSpec) (vs : List ValueSpec)
    → HasRoom lay (values_space (v ∷ vs))
    → AllStand blob (layout_values (layout_value lay v).0 vs).0
    → AllStand blob (layout_value lay v).0
first_stands blob lay v vs room s =
    let e = layout_value-Extends lay v (room_first _ room) in
    let more =
      layout_values-Extends (layout_value lay v).0 vs (room_rest room e (value_space-units v)) in
    All-front (Stands blob) _ more.new (subst (All (Stands blob)) more.cells s)

layout_values-back :
    (blob : Bytes) (lay : Layout) (vs : List ValueSpec)
    → HasRoom lay (values_space vs)
    → All IsNamed vs
    → AllStand blob (layout_values lay vs).0
    → read_values blob (layout_values lay vs).1 ≡ some (map value_entry vs)
unfolding layout_values read_values
layout_values-back blob lay [] room h s = refl
layout_values-back blob lay (v ∷ vs) room (h, hs) s =
    let e = layout_value-Extends lay v (room_first _ room) in
    rw
      (
        read_named-layout_value blob lay v (room_first _ room) h
            (first_stands blob lay v vs room s),
        layout_values-back blob (layout_value lay v).0 vs (room_rest room e (value_space-units v))
            hs s,
      )
      refl

-- The offset of a value lies within the layout.
layout_value-offset :
    (lay : Layout) (v : ValueSpec) → HasRoom lay (value_space v) → (layout_value lay v).1 < 2 ^ 32
unfolding emit
layout_value-offset lay v room = elim (Bool-cases (leb (length v.bytes) 4)) [
  | inl e ↦
      let (size, word, q) = layout_value_resident lay v (leb→le _ _ e) in
      rw q (omega (arith, room.room))
  | inr e ↦ rw (layout_value_apart lay v (ground arith) (ground (arith, room.room))) (omega arith)
]

layout_values-offsets :
    (lay : Layout) (vs : List ValueSpec)
    → HasRoom lay (values_space vs)
    → All (λ x. x < 2 ^ 32) (layout_values lay vs).1
unfolding layout_values
layout_values-offsets lay [] room = tt
layout_values-offsets lay (v ∷ vs) room = (
  layout_value-offset lay v (room_first _ room),
  layout_values-offsets (layout_value lay v).0 vs
      (room_rest room (layout_value-Extends lay v (room_first _ room)) (value_space-units v)),
)

-- A cell with a list of offsets.
read_offset_cell :
    (blob : Bytes) (off : ℕ) (offs : List ℕ)
    → 4 * length offs + 11 < 2 ^ 32
    → All (λ x. x < 2 ^ 32) offs
    → Stands blob (off, alloc_cell (offset_list offs))
    → read_offsets 4 (length offs) blob (4096 + off + 4) ≡ some offs
unfolding alloc_cell
read_offset_cell blob off offs h small s =
    let len = length-offset_list offs in
    let at : 4096 + off + 4 ≡ (4096 + off + 4) + 0 = omega arith in
    rw at (
      read_offsets_moved 4 (length offs) (4096 + off + 4) 0 (length (offset_list offs)) blob
        (offset_list offs) (omega arith)
        (λ i m k.
          ap (λ (t : ℕ). slice blob t m) (omega arith)
          ∙ Stands-payload (offset_list offs) true (omega (arith, len)) blob off i m s k)
        (omega (arith, len)))
    ∙ read_offsets-offset_list offs small

pub layout_value_list-back :
    (blob : Bytes) (lay : Layout) (vs : List ValueSpec)
    → HasRoom lay (value_list_space vs)
    → All IsNamed vs
    → AllStand blob (layout_value_list lay vs).0
    → values_at blob (layout_value_list lay vs).1.0 (layout_value_list lay vs).1.1
      ≡ some (map value_entry vs)
unfolding layout_value_list values_at
layout_value_list-back blob lay [] room h s = unfold read_offsets read_values in refl
layout_value_list-back blob lay (v ∷ vs) room h s =
    let offs = (layout_values lay (v ∷ vs)).1 in
    let later = (layout_values lay (v ∷ vs)).0 in
    let n : length offs ≡ length (v ∷ vs) = length-layout_values lay (v ∷ vs) in
    let few : as_u32 (length (v ∷ vs)) ≡ length offs = omega (arith, n, room.room) in
    let (front, there) = emit-Stands blob later (alloc_cell (offset_list offs)) s in
    let inner : HasRoom lay (values_space (v ∷ vs)) = room_first _ room in
    rw
      (
        few,
        read_offset_cell blob _ offs (omega (arith, n, room.room))
            (layout_values-offsets lay (v ∷ vs) inner) there,
      )
      (layout_values-back blob lay (v ∷ vs) inner h front)
