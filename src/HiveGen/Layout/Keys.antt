-- ===== src/HiveGen/Layout/Keys.antt =====
-- The space of whole keys, and that the layout of a key takes exactly that much.
use vgi_reghive.Base.{ℕ, zero, suc, ◌+◌, ◌%◌, ◌^◌, ◌<◌, ◌≡◌, refl, sym, ap, ◌∙◌, Bool, true}
use vgi_reghive.Base.{false, List, [], ◌∷◌, ◌++◌, append_assoc, arith, length, Bytes, Text}
use mathlib.Core.Path.{subst}
use vgi_reghive.Base.Utf8.{as_bytes}
use vgi_reghive.HiveGen.Spec.{ValueSpec, KeySpec, Subkeys, key, no_keys, and_key, key_name}
use vgi_reghive.HiveGen.Cells.{as_u32, cell_size, alloc_cell, nk_payload}
use vgi_reghive.HiveGen.Cells.Sizes.{padded, cell_size-padded, length-nk_payload}
use vgi_reghive.HiveGen.Cells.Sizes.{length-cell_with_sign}
use vgi_reghive.HiveGen.Layout.{Layout, reserve, place, nk_cell, key_flags, layout_key, layout_lf}
use vgi_reghive.HiveGen.Layout.{layout_value_list, layout_subkeys}
use vgi_reghive.HiveGen.Layout.Tiles.{Sized, cell_with_sign-Sized, Extends, Extends-refl}
use vgi_reghive.HiveGen.Layout.Tiles.{Extends-trans, HasRoom, Tiles, Tiles-behind, Tiles-one}
use vgi_reghive.HiveGen.Layout.Sizes.{room_first, room_rest}
use vgi_reghive.HiveGen.Layout.Lists.{layout_value_list-Extends, layout_lf-Extends}
use vgi_reghive.HiveGen.Layout.Lists.{value_list_space, values_space-units, lf_space}

abbrev pub count : Subkeys → ℕ
count no_keys = 0
count (and_key k ks) = suc (count ks)

abbrev pub nk_len : Text → ℕ
nk_len name = 76 + length (as_bytes name)

-- A key: its `nk` cell, its values with their list, its subkeys with theirs.
unfoldable mutual
  pub key_space : KeySpec → ℕ
  key_space (key name last_written values subkeys) =
      padded (nk_len name)
      + (value_list_space values + (subkeys_space subkeys + lf_space (count subkeys)))

  pub subkeys_space : Subkeys → ℕ
  subkeys_space no_keys = 0
  subkeys_space (and_key k ks) = key_space k + subkeys_space ks

pub value_list_space-units : (vs : List ValueSpec) → value_list_space vs % 8 ≡ 0
value_list_space-units [] = omega arith
value_list_space-units (v ∷ vs) = omega (arith, values_space-units (v ∷ vs))

lf_space-units : (n : ℕ) → lf_space n % 8 ≡ 0
lf_space-units zero = omega arith
lf_space-units (suc n) = omega arith

mutual
  unfolding key_space

  pub key_space-units : (k : KeySpec) → key_space k % 8 ≡ 0
  key_space-units (key name last_written values subkeys) = omega (
    arith,
    value_list_space-units values,
    subkeys_space-units subkeys,
    lf_space-units (count subkeys),
  )

  pub subkeys_space-units : (ks : Subkeys) → subkeys_space ks % 8 ≡ 0
  subkeys_space-units no_keys = omega arith
  subkeys_space-units (and_key k ks) = omega (arith, key_space-units k, subkeys_space-units ks)

pub length-layout_subkeys :
    (ks : Subkeys) (lay : Layout) (nk_off : ℕ) → length (layout_subkeys ks lay nk_off).1 ≡ count ks
unfolding layout_subkeys
length-layout_subkeys no_keys lay nk_off = refl
length-layout_subkeys (and_key k ks) lay nk_off =
    ap suc (length-layout_subkeys ks (layout_key k lay nk_off false).0 nk_off)

-- A cell is reserved, what belongs to it is laid out behind, and then the cell is placed.
module _ (lay : Layout) (s n rest : ℕ) (e : s ≡ padded n) (h : HasRoom lay (padded n + rest)) where
  reserved_next : (reserve lay s).0.next ≡ lay.next + padded n
  unfolding reserve
  reserved_next = omega (arith, e, h.room)

  pub reserved_room : HasRoom (reserve lay s).0 rest
  reserved_room = record {
    aligned = omega (arith, reserved_next, h.aligned);
    room = omega (arith, reserved_next, h.room);
  }

  place-Extends :
      (later : Layout) (b : Bytes)
      → length b ≡ padded n
      → Sized b
      → Extends (reserve lay s).0 later rest
      → Extends lay (place later lay.next b) (padded n + rest)
  unfolding place reserve
  place-Extends later b len z x = record {
    grows = omega (arith, x.grows, reserved_next);
    new = x.new ++ (lay.next, b) ∷ [];
    cells =
        ap (λ (t : List (ℕ × Bytes)). t ++ (lay.next, b) ∷ []) x.cells
        ∙ append_assoc lay.cells x.new ((lay.next, b) ∷ []);
    tiles =
        Tiles-behind
          (subst (λ (t : ℕ). Tiles lay.next t ((lay.next, b) ∷ []))
            (omega (arith, len, reserved_next))
            (Tiles-one lay.next b h.aligned (omega (arith, len)) (omega (arith, len)) z))
          x.tiles;
  }

pub nk_size :
    (name : Text)
    → nk_len name + 11 < 2 ^ 32
    → cell_size (as_u32 (76 + as_u32 (length (as_bytes name)))) ≡ padded (nk_len name)
nk_size name h = ap cell_size (omega arith) ∙ cell_size-padded (nk_len name) h

length-nk_cell :
    (k : KeySpec) (is_root : Bool) (parent : ℕ) (vl sl : ℕ × ℕ)
    → nk_len (key_name k) + 11 < 2 ^ 32
    → length (nk_cell k is_root parent vl sl) ≡ padded (nk_len (key_name k))
unfolding nk_cell alloc_cell
length-nk_cell k is_root parent vl sl h =
    let len = length-nk_payload k (key_flags is_root) parent sl.0 sl.1 vl.0 vl.1 in
    length-cell_with_sign (nk_payload k (key_flags is_root) parent sl.0 sl.1 vl.0 vl.1) true
      (omega (arith, len, h))
    ∙ ap padded len

nk_cell-Sized :
    (k : KeySpec) (is_root : Bool) (parent : ℕ) (vl sl : ℕ × ℕ)
    → nk_len (key_name k) + 11 < 2 ^ 32
    → Sized (nk_cell k is_root parent vl sl)
unfolding nk_cell alloc_cell
nk_cell-Sized k is_root parent vl sl h =
    cell_with_sign-Sized (nk_payload k (key_flags is_root) parent sl.0 sl.1 vl.0 vl.1) true
      (omega (arith, length-nk_payload k (key_flags is_root) parent sl.0 sl.1 vl.0 vl.1, h))

mutual
  unfolding layout_key key_space key_name reserve

  pub layout_key-grows :
      (k : KeySpec) (lay : Layout) (parent : ℕ) (is_root : Bool)
      → HasRoom lay (key_space k)
      → Extends lay (layout_key k lay parent is_root).0 (key_space k)
  layout_key-grows (key name last_written values subkeys) lay parent is_root h =
      let size = nk_size name (omega (arith, h.room)) in
      let lay1 = (reserve lay (cell_size (as_u32 (76 + as_u32 (length (as_bytes name)))))).0 in
      let room1 = reserved_room lay _ (nk_len name) _ size h in
      let e1 = layout_value_list-Extends lay1 values (room_first _ room1) in
      let room2 = room_rest room1 e1 (value_list_space-units values) in
      let lay2 = (layout_value_list lay1 values).0 in
      let e2 = layout_subkeys-grows subkeys lay2 lay.next (room_first _ room2) in
      let room3 = room_rest room2 e2 (subkeys_space-units subkeys) in
      let subs = layout_subkeys subkeys lay2 lay.next in
      let n = length-layout_subkeys subkeys lay2 lay.next in
      let e3 =
        subst (λ (t : ℕ). Extends subs.0 (layout_lf subs.0 subs.1).0 (lf_space t)) n
          (layout_lf-Extends subs.0 subs.1
            (subst (λ (t : ℕ). HasRoom subs.0 (lf_space t)) (sym n) room3)) in
      place-Extends lay _ (nk_len name) _ size h _ _
        (length-nk_cell (key name last_written values subkeys) is_root parent
          (layout_value_list lay1 values).1 (layout_lf subs.0 subs.1).1 (omega (arith, h.room)))
        (nk_cell-Sized (key name last_written values subkeys) is_root parent
          (layout_value_list lay1 values).1 (layout_lf subs.0 subs.1).1 (omega (arith, h.room)))
        (Extends-trans e1 (Extends-trans e2 e3))

  pub layout_subkeys-grows :
      (ks : Subkeys) (lay : Layout) (nk_off : ℕ)
      → HasRoom lay (subkeys_space ks)
      → Extends lay (layout_subkeys ks lay nk_off).0 (subkeys_space ks)
  layout_subkeys-grows no_keys lay nk_off h = Extends-refl lay
  layout_subkeys-grows (and_key k ks) lay nk_off h =
      let e = layout_key-grows k lay nk_off false (room_first _ h) in
      Extends-trans e (
        layout_subkeys-grows ks (layout_key k lay nk_off false).0 nk_off
          (room_rest h e (key_space-units k)))
