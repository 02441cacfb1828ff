-- ===== src/HiveGen/Layout/Orphans.antt =====
-- The space of orphan keys, and that their layout takes exactly that much.
use vgi_reghive.Base.{ℕ, zero, suc, ◌+◌, ◌*◌, ◌%◌, ◌≡◌, refl, sym, ap, arith, List, [], ◌∷◌}
use vgi_reghive.Base.{length, false}
use mathlib.Core.Path.{subst}
use vgi_reghive.HiveGen.Spec.{ValueSpec, KeySpec, key_name}
use vgi_reghive.HiveGen.Cells.{free_cell, nk_payload, key_comp_name}
use vgi_reghive.HiveGen.Cells.Sizes.{padded, length-nk_payload}
use vgi_reghive.HiveGen.Layout.{Layout, offset_list, orphan_value, orphan_values}
use vgi_reghive.HiveGen.Layout.{orphan_value_list, layout_orphan, layout_orphans, key_values}
use vgi_reghive.HiveGen.Layout.Tiles.{Extends, Extends-refl, Extends-trans, HasRoom, emit-Extends}
use vgi_reghive.HiveGen.Layout.Sizes.{value_space-units, room_first, room_rest}
use vgi_reghive.HiveGen.Layout.Sizes.{orphan_value-Extends}
use vgi_reghive.HiveGen.Layout.Keys.{nk_len}
use vgi_reghive.HiveGen.Layout.Lists.{values_space, length-offset_list, values_space-units}

length-orphan_values :
    (lay : Layout) (vs : List ValueSpec) → length (orphan_values lay vs).1 ≡ length vs
unfolding orphan_values
length-orphan_values lay [] = refl
length-orphan_values lay (v ∷ vs) = ap suc (length-orphan_values (orphan_value lay v).0 vs)

orphan_values-Extends :
    (lay : Layout) (vs : List ValueSpec)
    → HasRoom lay (values_space vs)
    → Extends lay (orphan_values lay vs).0 (values_space vs)
unfolding orphan_values
orphan_values-Extends lay [] h = Extends-refl lay
orphan_values-Extends lay (v ∷ vs) h =
    let e = orphan_value-Extends lay v (room_first _ h) in
    Extends-trans e
      (orphan_values-Extends (orphan_value lay v).0 vs (room_rest h e (value_space-units v)))

-- The list of `n` offsets of values.
abbrev offsets_space : ℕ → ℕ
offsets_space zero = 0
offsets_space (suc n) = padded (4 * suc n)

offsets_space-units : (n : ℕ) → offsets_space n % 8 ≡ 0
offsets_space-units zero = omega arith
offsets_space-units (suc n) = omega arith

orphan_value_list-Extends :
    (lay : Layout) (offs : List ℕ)
    → HasRoom lay (offsets_space (length offs))
    → Extends lay (orphan_value_list lay offs).0 (offsets_space (length offs))
unfolding orphan_value_list free_cell
orphan_value_list-Extends lay [] h = Extends-refl lay
orphan_value_list-Extends lay (off ∷ offs) h =
    emit-Extends lay (offset_list (off ∷ offs)) false _ (length-offset_list (off ∷ offs)) h

-- The values of an orphan, their list and its `nk` cell.
abbrev pub orphan_space : KeySpec → ℕ
orphan_space k =
    values_space (key_values k)
    + (offsets_space (length (key_values k)) + padded (nk_len (key_name k)))

abbrev pub orphans_space : List KeySpec → ℕ
orphans_space [] = 0
orphans_space (k ∷ ks) = orphan_space k + orphans_space ks

layout_orphan-Extends :
    (lay : Layout) (k : KeySpec)
    → HasRoom lay (orphan_space k)
    → Extends lay (layout_orphan lay k) (orphan_space k)
unfolding layout_orphan free_cell
layout_orphan-Extends lay k h =
    let vs = key_values k in
    let e1 = orphan_values-Extends lay vs (room_first _ h) in
    let lay1 = (orphan_values lay vs).0 in
    let offs = (orphan_values lay vs).1 in
    let room1 = room_rest h e1 (values_space-units vs) in
    let n = length-orphan_values lay vs in
    let e2 =
      subst (λ (t : ℕ). Extends lay1 (orphan_value_list lay1 offs).0 (offsets_space t)) n
        (orphan_value_list-Extends lay1 offs
          (subst (λ (t : ℕ). HasRoom lay1 (offsets_space t)) (sym n) (room_first _ room1))) in
    let lay2 = (orphan_value_list lay1 offs).0 in
    let list = (orphan_value_list lay1 offs).1 in
    Extends-trans e1 (
      Extends-trans e2 (
        emit-Extends lay2 (nk_payload k key_comp_name 0 0 0 list.0 list.1) false _
          (length-nk_payload k key_comp_name 0 0 0 list.0 list.1)
          (room_rest room1 e2 (offsets_space-units (length vs)))))

orphan_space-units : (k : KeySpec) → orphan_space k % 8 ≡ 0
orphan_space-units k =
    omega (arith, values_space-units (key_values k), offsets_space-units (length (key_values k)))

pub layout_orphans-Extends :
    (lay : Layout) (ks : List KeySpec)
    → HasRoom lay (orphans_space ks)
    → Extends lay (layout_orphans lay ks) (orphans_space ks)
unfolding layout_orphans
layout_orphans-Extends lay [] h = Extends-refl lay
layout_orphans-Extends lay (k ∷ ks) h =
    let e = layout_orphan-Extends lay k (room_first _ h) in
    Extends-trans e
      (layout_orphans-Extends (layout_orphan lay k) ks (room_rest h e (orphan_space-units k)))

pub orphans_space-units : (ks : List KeySpec) → orphans_space ks % 8 ≡ 0
orphans_space-units [] = omega arith
orphans_space-units (k ∷ ks) = omega (arith, orphan_space-units k, orphans_space-units ks)
