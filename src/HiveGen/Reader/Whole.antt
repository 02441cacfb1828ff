-- ===== src/HiveGen/Reader/Whole.antt =====
-- Whole keys are read back: from the layout of a key, and from a built hive.
use vgi_reghive.Base.{All-front, ℕ, zero, suc, ◌+◌, ◌^◌, ◌≤◌, ◌<◌, ◌≡◌, refl, sym, ap, ◌∙◌, Bool}
use vgi_reghive.Base.{false, Option, some, List, [], ◌∷◌, map, arith, length, All, Bytes, Text}
use vgi_reghive.Base.Utf8.{as_bytes}
use vgi_reghive.HiveGen.Spec.{ValueSpec, KeySpec, Subkeys, key, no_keys, and_key, key_name}
use vgi_reghive.HiveGen.Spec.{key_last_written}
use vgi_reghive.HiveGen.Cells.{as_u32, cell_size, alloc_cell}
use vgi_reghive.HiveGen.Layout.{Layout, reserve, place, emit, nk_cell, key_flags, layout_key}
use vgi_reghive.HiveGen.Layout.{layout_lf, layout_value_list, layout_subkeys}
use vgi_reghive.HiveGen.Layout.Tiles.{Extends, HasRoom}
use vgi_reghive.HiveGen.Layout.Sizes.{room_first, room_rest}
use vgi_reghive.HiveGen.Layout.Lists.{layout_value_list-Extends, layout_values-Extends}
use vgi_reghive.HiveGen.Layout.Lists.{layout_lf-Extends, value_list_space, lf_space}
use vgi_reghive.HiveGen.Layout.Keys.{key_space, subkeys_space, count, nk_len, nk_size}
use vgi_reghive.HiveGen.Layout.Keys.{reserved_room, layout_key-grows, layout_subkeys-grows}
use vgi_reghive.HiveGen.Layout.Keys.{length-layout_subkeys, key_space-units, subkeys_space-units}
use vgi_reghive.HiveGen.Layout.Keys.{value_list_space-units}
use vgi_reghive.HiveGen.Layout.ReadBack.{Stands, AllStand, All-last, emit-Stands}
use vgi_reghive.HiveGen.Reader.{read_trees, read_key, trees_at, KeyTree, Trees, tree_of, trees_of}
use vgi_reghive.HiveGen.Reader.{depth, depths, IsKey, AreKeys, value_entry}
use vgi_reghive.HiveGen.Reader.Offsets.{offsets_in, IsOffset}
use vgi_reghive.HiveGen.Reader.Values.{layout_value_list-back}
use vgi_reghive.HiveGen.Reader.Nodes.{NkWidths, read_key-nk, trees_at-lf}
use mathlib.Core.Path.{subst}

-- The number and the offset of a list fit their fields.
Fits32 : ℕ × ℕ → Type 0
Fits32 list = (list.0 < 2 ^ 32) × (list.1 < 2 ^ 32)

layout_value_list-Fits32 :
    (lay : Layout) (vs : List ValueSpec)
    → HasRoom lay (value_list_space vs)
    → Fits32 (layout_value_list lay vs).1
unfolding layout_value_list emit Fits32
layout_value_list-Fits32 lay [] room = (omega arith, omega arith)
layout_value_list-Fits32 lay (v ∷ vs) room =
    let e = layout_values-Extends lay (v ∷ vs) (room_first _ room) in
    (omega arith, omega (arith, e.grows, room.room))

layout_lf-Fits32 :
    (lay : Layout) (child : List (ℕ × Text)) → lay.next < 2 ^ 32 → Fits32 (layout_lf lay child).1
unfolding layout_lf emit Fits32
layout_lf-Fits32 lay [] h = (omega arith, omega arith)
layout_lf-Fits32 lay (c ∷ child) h = (omega arith, h)

-- The subkeys are read through their list.
layout_lf-back :
    (read : ℕ → Option KeyTree) (blob : Bytes) (lay : Layout) (child : List (ℕ × Text))
    (subs : Trees)
    → length child < 2 ^ 16
    → All IsOffset child
    → AllStand blob (layout_lf lay child).0
    → read_trees read (offsets_in child) ≡ some subs
    → trees_at read blob (layout_lf lay child).1.0 (layout_lf lay child).1.1 ≡ some subs
unfolding layout_lf trees_at read_trees emit
layout_lf-back read blob lay [] subs few small s e = e
layout_lf-back read blob lay (c ∷ child) subs few small s e =
    let there = (emit-Stands blob lay _ s).1 in
    let n : as_u32 (length (c ∷ child)) ≡ length (c ∷ child) = omega (arith, few) in
    ap (λ (t : ℕ). trees_at read blob t lay.next) n
    ∙ trees_at-lf read blob lay.next c child few small there subs e

key_offset :
    (k : KeySpec) (lay : Layout) (parent : ℕ) (is_root : Bool)
    → (layout_key k lay parent is_root).1 ≡ lay.next
unfolding layout_key reserve
key_offset (key name w vs subs) lay parent is_root = refl

layout_subkeys-offsets :
    (ks : Subkeys) (lay : Layout) (nk_off : ℕ)
    → HasRoom lay (subkeys_space ks)
    → All IsOffset (layout_subkeys ks lay nk_off).1
unfolding layout_subkeys subkeys_space
layout_subkeys-offsets no_keys lay nk_off room = tt
layout_subkeys-offsets (and_key k ks) lay nk_off room =
    let e = layout_key-grows k lay nk_off false (room_first _ room) in
    (
      omega (arith, key_offset k lay nk_off false, room.room),
      layout_subkeys-offsets ks (layout_key k lay nk_off false).0 nk_off
          (room_rest room e (key_space-units k)),
    )

-- The stages of the layout of a key: its cell is reserved, the values are laid out, the subkeys, their
-- list, and the cell is placed.
module _ (name : Text) (w : ℕ) (vs : List ValueSpec) (subs : Subkeys) (lay : Layout) (parent : ℕ)
    (is_root : Bool) (blob : Bytes) (h : HasRoom lay (key_space (key name w vs subs))) where
  abbrev reserved : Layout
  reserved = (reserve lay (cell_size (as_u32 (76 + as_u32 (length (as_bytes name)))))).0

  abbrev with_values : Layout
  with_values = (layout_value_list reserved vs).0

  abbrev with_subkeys : Layout × List (ℕ × Text)
  with_subkeys = layout_subkeys subs with_values lay.next

  abbrev with_list : Layout
  with_list = (layout_lf with_subkeys.0 with_subkeys.1).0

  room_values :
      HasRoom reserved (value_list_space vs + (subkeys_space subs + lf_space (count subs)))
  unfolding key_space
  room_values = reserved_room lay _ (nk_len name) _ (nk_size name (omega (arith, h.room))) h

  values-Extends : Extends reserved with_values (value_list_space vs)
  values-Extends = layout_value_list-Extends reserved vs (room_first _ room_values)

  room_subkeys : HasRoom with_values (subkeys_space subs + lf_space (count subs))
  room_subkeys = room_rest room_values values-Extends (value_list_space-units vs)

  subkeys-Extends : Extends with_values with_subkeys.0 (subkeys_space subs)
  subkeys-Extends = layout_subkeys-grows subs with_values lay.next (room_first _ room_subkeys)

  room_list : HasRoom with_subkeys.0 (lf_space (length with_subkeys.1))
  room_list =
      subst (λ (t : ℕ). HasRoom with_subkeys.0 (lf_space t))
        (sym (length-layout_subkeys subs with_values lay.next))
        (room_rest room_subkeys subkeys-Extends (subkeys_space-units subs))

  -- What stands at each stage, where the whole layout stands.
  list-Stands :
      AllStand blob (layout_key (key name w vs subs) lay parent is_root).0
      → AllStand blob with_list
        × Stands blob (
          lay.next,
          nk_cell
              (key name w vs subs)
              is_root
              parent
              (layout_value_list reserved vs).1
              (layout_lf with_subkeys.0 with_subkeys.1).1,
        )
  unfolding layout_key place reserve
  list-Stands s = All-last blob with_list.cells _ s

  subkeys_stand : AllStand blob with_list → AllStand blob with_subkeys.0
  subkeys_stand s =
      let e = layout_lf-Extends with_subkeys.0 with_subkeys.1 room_list in
      All-front (Stands blob) _ e.new (subst (All (Stands blob)) e.cells s)

  values_stand : AllStand blob with_subkeys.0 → AllStand blob with_values
  values_stand s =
      All-front (Stands blob) _ subkeys-Extends.new
        (subst (All (Stands blob)) subkeys-Extends.cells s)

  key_widths :
      (length (as_bytes name) < 2 ^ 16)
      → w < 2 ^ 64
      → NkWidths
          (key name w vs subs)
          (layout_lf with_subkeys.0 with_subkeys.1).1.0
          (layout_lf with_subkeys.0 with_subkeys.1).1.1
          (layout_value_list reserved vs).1.0
          (layout_value_list reserved vs).1.1
  unfolding Fits32 key_name key_last_written
  key_widths short early =
      let v = layout_value_list-Fits32 reserved vs (room_first _ room_values) in
      let l = layout_lf-Fits32 with_subkeys.0 with_subkeys.1 (omega (arith, room_list.room)) in
      record {
        written = early;
        name = short;
        sub_count = l.0;
        sub_offset = l.1;
        value_count = v.0;
        value_offset = v.1;
      }

  -- A key is read, where its subkeys are.
  one_key-back :
      (fuel : ℕ)
      → IsKey (key name w vs subs)
      → AllStand blob (layout_key (key name w vs subs) lay parent is_root).0
      → (AllStand blob with_subkeys.0
          → read_trees (read_key fuel blob) (offsets_in with_subkeys.1) ≡ some (trees_of subs))
      → read_key (suc fuel) blob lay.next ≡ some (tree_of (key name w vs subs))
  unfolding IsKey tree_of nk_cell alloc_cell key_name key_last_written key_space
  one_key-back fuel (short, (early, (few, (named, keys)))) s subs_back =
      let (stands, nk) = list-Stands s in
      let subs_there = subkeys_stand stands in
      let n = length-layout_subkeys subs with_values lay.next in
      read_key-nk blob lay.next (key name w vs subs) (key_flags is_root) parent _ _ _ _
        (omega (arith, h.room)) nk fuel (map value_entry vs) (trees_of subs)
        (key_widths short early)
        (layout_value_list-back blob reserved vs (room_first _ room_values) named
          (values_stand subs_there))
        (layout_lf-back (read_key fuel blob) blob with_subkeys.0 with_subkeys.1 (trees_of subs)
          (omega (arith, n, few))
          (layout_subkeys-offsets subs with_values lay.next (room_first _ room_subkeys)) stands
          (subs_back subs_there))

mutual
  unfolding depth IsKey AreKeys read_trees trees_of layout_subkeys subkeys_space

  pub key-back :
      (fuel : ℕ) (k : KeySpec) (lay : Layout) (parent : ℕ) (is_root : Bool) (blob : Bytes)
      → HasRoom lay (key_space k)
      → IsKey k
      → depth k ≤ fuel
      → AllStand blob (layout_key k lay parent is_root).0
      → read_key fuel blob lay.next ≡ some (tree_of k)
  key-back zero (key name w vs subs) lay parent is_root blob room h d s = absurd (omega arith)
  key-back (suc fuel) (key name w vs subs) lay parent is_root blob room h d s =
      one_key-back name w vs subs lay parent is_root blob room fuel h s (
        subkeys-back fuel subs _ lay.next blob
          (room_first _ (room_subkeys name w vs subs lay parent is_root blob room)) h.1.1.1.1
          (omega (arith, d)))

  subkeys-back :
      (fuel : ℕ) (ks : Subkeys) (lay : Layout) (nk_off : ℕ) (blob : Bytes)
      → HasRoom lay (subkeys_space ks)
      → AreKeys ks
      → depths ks ≤ fuel
      → AllStand blob (layout_subkeys ks lay nk_off).0
      → read_trees (read_key fuel blob) (offsets_in (layout_subkeys ks lay nk_off).1)
        ≡ some (trees_of ks)
  subkeys-back fuel no_keys lay nk_off blob room h d s = refl
  subkeys-back fuel (and_key k ks) lay nk_off blob room (h, hs) d s =
      let e = layout_key-grows k lay nk_off false (room_first _ room) in
      let rest = room_rest room e (key_space-units k) in
      let later = (layout_key k lay nk_off false).0 in
      let more = layout_subkeys-grows ks later nk_off rest in
      let first =
        All-front (Stands blob) later.cells more.new (subst (All (Stands blob)) more.cells s) in
      rw
        (
          key_offset k lay nk_off false,
          key-back fuel k lay nk_off false blob (room_first _ room) h (omega (arith, d)) first,
          subkeys-back fuel ks later nk_off blob rest hs (omega (arith, d)) s,
        )
        refl
