-- ===== src/HiveGen/Build/Root.antt =====
-- The root cell of a built hive, where the base block says that it is.
use vgi_reghive.Base.{All-front, ℕ, ◌+◌, ◌^◌, ◌≤◌, ◌<◌, ◌≡◌, refl, ap, ◌∙◌, Bool, true, some}
use vgi_reghive.Base.{List, [], ◌∷◌, ◌++◌, arith, length, take, drop, All, slice, slice_within}
use vgi_reghive.Base.{Bytes, Text, codes}
use vgi_reghive.BaseBlock.{rd_u32, rd_u64}
use vgi_reghive.Base.Words.{to_le, from_le-to_le}
use vgi_reghive.Base.Utf8.{as_bytes}
use vgi_reghive.HiveGen.Spec.{KeySpec, Subkeys, no_keys, and_key, HiveSpec, ValueSpec, key}
use vgi_reghive.HiveGen.Spec.{key_name, key_last_written}
use vgi_reghive.HiveGen.Cells.{as_u32, alloc_cell, cell_with_sign, nk_payload}
use vgi_reghive.HiveGen.Cells.Sizes.{length-nk_payload, take-all}
use vgi_reghive.HiveGen.Layout.{Layout, layout_key, layout_lf, layout_value_list, key_values}
use vgi_reghive.HiveGen.Layout.{nk_cell, place, reserve, new_layout}
use vgi_reghive.HiveGen.Layout.Lists.{value_list_space}
use vgi_reghive.HiveGen.Layout.Keys.{key_space, subkeys_space, count, nk_len}
use vgi_reghive.HiveGen.Layout.Keys.{length-layout_subkeys, key_space-units, layout_key-grows}
use vgi_reghive.HiveGen.Layout.ReadBack.{Stands, Stands-payload, All-last}
use vgi_reghive.HiveGen.Build.{build, whole_layout}
use vgi_reghive.HiveGen.Layout.Orphans.{layout_orphans-Extends}
use vgi_reghive.HiveGen.Layout.Sizes.{room_first, room_rest}
use vgi_reghive.HiveGen.Layout.Tiles.{HasRoom}
use vgi_reghive.HiveGen.Build.Bin.{hive_space}
use vgi_reghive.HiveGen.Build.RoundTrip.{IsSpec, build-cells}
use mathlib.Core.Path.{subst}

unfoldable pub key_subkeys : KeySpec → Subkeys
key_subkeys (key name last_written values subkeys) = subkeys

-- The fields of a key whose cell stands at the offset.
pub record KeyStands (blob : Bytes) (off : ℕ) (k : KeySpec) (flags : ℕ) : Type 0 where
  pub signature : slice blob (4096 + off + 4) 2 ≡ some (codes "nk")
  pub marks : slice blob (4096 + off + 6) 2 ≡ some (to_le 2 flags)
  pub written : rd_u64 blob (4096 + off + 8) ≡ some (key_last_written k)
  pub n_subkeys : rd_u32 blob (4096 + off + 24) ≡ some (count (key_subkeys k))
  pub n_values : rd_u32 blob (4096 + off + 40) ≡ some (length (key_values k))
  pub name :
      slice blob (4096 + off + 80) (length (as_bytes (key_name k))) ≡ some (as_bytes (key_name k))

-- The counts in the cell of a key.
value_count :
    (lay : Layout) (vs : List ValueSpec) → (layout_value_list lay vs).1.0 ≡ as_u32 (length vs)
unfolding layout_value_list
value_count lay [] = omega arith
value_count lay (v ∷ vs) = refl

subkey_count :
    (lay : Layout) (child : List (ℕ × Text)) → (layout_lf lay child).1.0 ≡ as_u32 (length child)
unfolding layout_lf
subkey_count lay [] = omega arith
subkey_count lay (c ∷ child) = refl

-- A key is placed last, where room was made for it first.
record Placed (k : KeySpec) (lay later : Layout) (is_root : Bool) (parent : ℕ) : Type 0 where
  pub front : List (ℕ × Bytes)
  pub vl : ℕ × ℕ
  pub sl : ℕ × ℕ
  pub cells : later.cells ≡ front ++ (lay.next, nk_cell k is_root parent vl sl) ∷ []
  pub values : vl.0 ≡ as_u32 (length (key_values k))
  pub subkeys : sl.0 ≡ as_u32 (count (key_subkeys k))

layout_key-Placed :
    (k : KeySpec) (lay : Layout) (parent : ℕ) (is_root : Bool)
    → Placed k lay (layout_key k lay parent is_root).0 is_root parent
unfolding layout_key place reserve key_values key_subkeys
layout_key-Placed (key name last_written values subkeys) lay parent is_root = record {
  front = _;
  vl = _;
  sl = _;
  cells = refl;
  values = value_count _ values;
  subkeys = subkey_count _ _ ∙ ap as_u32 (length-layout_subkeys subkeys _ _);
}

length-values_space : (vs : List ValueSpec) → length vs ≤ value_list_space vs
length-values_space [] = omega arith
length-values_space (v ∷ vs) = omega arith

count-subkeys_space : (ks : Subkeys) → count ks ≤ subkeys_space ks
unfolding subkeys_space
count-subkeys_space no_keys = omega arith
count-subkeys_space (and_key (key name w vs subs) ks) = omega (arith, count-subkeys_space ks)

-- A key whose numbers fit.
record Fitting (k : KeySpec) : Type 0 where
  pub cell : nk_len (key_name k) + 11 < 2 ^ 32
  pub values : length (key_values k) < 2 ^ 32
  pub subkeys : count (key_subkeys k) < 2 ^ 32
  pub written : key_last_written k < 2 ^ 64

key-Fitting : (k : KeySpec) → key_space k + 16 < 2 ^ 32 → key_last_written k < 2 ^ 64 → Fitting k
unfolding key_space key_name key_values key_subkeys
key-Fitting (key name w vs subs) h l = record {
  cell = omega (arith, h);
  values = omega (arith, h, length-values_space vs);
  subkeys = omega (arith, h, count-subkeys_space subs);
  written = l;
}

module _ (blob : Bytes) (off : ℕ) (k : KeySpec) (flags parent n_sub sl n_values vl : ℕ)
    (f : Fitting k)
    (s : Stands blob
      (off, cell_with_sign (nk_payload k flags parent n_sub sl n_values vl) true)) where
  abbrev payload : Bytes
  payload = nk_payload k flags parent n_sub sl n_values vl

  nk_part :
      (i m : ℕ)
      → i + m ≤ nk_len (key_name k)
      → slice blob (4096 + off + (4 + i)) m ≡ some (take m (drop i payload))
  nk_part i m q =
      let len = length-nk_payload k flags parent n_sub sl n_values vl in
      Stands-payload payload true (omega (arith, len, f.cell)) blob off i m s
        (omega (arith, len, q))
      ∙ slice_within payload i m (omega (arith, len, q))

  read_nk :
      n_sub ≡ as_u32 (count (key_subkeys k))
      → n_values ≡ as_u32 (length (key_values k))
      → KeyStands blob off k flags
  unfolding rd_u32 rd_u64 nk_payload to_le
  read_nk a b = record {
    signature = nk_part 0 2 (omega arith);
    marks = nk_part 2 2 (omega arith);
    written =
        rw (nk_part 4 8 (omega arith)) (ap some (from_le-to_le 8 (key_last_written k) f.written));
    n_subkeys =
        rw (nk_part 20 4 (omega arith))
          (ap some (from_le-to_le 4 n_sub (omega (arith, a)) ∙ a ∙ omega (arith, f.subkeys)));
    n_values =
        rw (nk_part 36 4 (omega arith))
          (ap some (from_le-to_le 4 n_values (omega (arith, b)) ∙ b ∙ omega (arith, f.values)));
    name =
        nk_part 76 (length (as_bytes (key_name k))) (omega arith)
        ∙ ap some (take-all (length (as_bytes (key_name k))) (as_bytes (key_name k)) (omega arith));
  }

-- The cells of the root come before those of the deleted keys.
pub root_part :
    (spec : HiveSpec)
    → hive_space spec + 48 < 2 ^ 32
    → (new : List (ℕ × Bytes)) × ((whole_layout spec).0.cells
        ≡ (layout_key spec.root new_layout 0 true).0.cells ++ new)
unfolding whole_layout
root_part spec h =
    let room : HasRoom new_layout (hive_space spec) = record {
      aligned = omega arith;
      room = omega arith;
    } in
    let e1 = layout_key-grows spec.root new_layout 0 true (room_first _ room) in
    let e =
      layout_orphans-Extends (layout_key spec.root new_layout 0 true).0 spec.deleted_orphans
        (room_rest room e1 (key_space-units spec.root)) in
    (e.new, e.cells)

-- In the blob of a spec the root cell, which the base block has at offset 32, is a key cell with the
-- marks of a root, and has the name of the spec's root key, the time of its last write, and the
-- numbers of its values and its subkeys.
pub build-root :
    (spec : HiveSpec) (blob : Bytes)
    → IsSpec spec
    → build spec ≡ some blob
    → KeyStands blob 32 spec.root 0x24
unfolding nk_cell alloc_cell
build-root spec blob h e =
    let (new, parts) = root_part spec (omega (arith, h.space)) in
    let p = layout_key-Placed spec.root new_layout 0 true in
    let all = subst (All (Stands blob)) parts (build-cells spec blob h e) in
    let ours = subst (All (Stands blob)) p.cells (All-front (Stands blob) _ new all) in
    let there = (All-last blob p.front _ ours).1 in
    read_nk blob 32 spec.root 0x24 0 p.sl.0 p.sl.1 p.vl.0 p.vl.1
      (key-Fitting spec.root (omega (arith, h.space)) h.written) there p.subkeys p.values
