-- ===== src/HiveGen/Reader.antt =====
-- A reader of keys in the format of hives, independent of the builder: the `nk` cell at an offset with its
-- values and its subkeys, through the list of values and the `lf` list. Offsets count from the end of
-- the base block.
pub mod Offsets
pub mod Values
pub mod Nodes
pub mod Whole
use vgi_reghive.HiveGen.Layout.Keys.{count}
use vgi_reghive.Base.{◌&&◌, ◌==◌, slice, ℕ, zero, suc, ◌+◌, max, ◌<◌, ◌^◌, Option, none, some}
use vgi_reghive.Base.{List, [], ◌∷◌, map, ◌>>=◌, if◌then◌else◌, All, length, Bytes, codes}
use mathlib.Core.Option
use vgi_reghive.Base.Words.{from_le}
use vgi_reghive.Base.Strings.{text_eq}
use vgi_reghive.Base.Utf8.{as_bytes}
use vgi_reghive.BaseBlock.{rd_u32, rd_u64}
use vgi_reghive.HiveGen.Spec.{ValueSpec, KeySpec, key, Subkeys, no_keys, and_key}
use vgi_reghive.HiveGen.Layout.ReadBack.{read_value, IsValue}

-- What is read: names are bytes, a value is its name, type and data.
mutual
  pub data KeyTree : Type 0 where
    tree : Bytes → ℕ → List (Bytes × (ℕ × Bytes)) → Trees → KeyTree

  pub data Trees : Type 0 where
    no_trees : Trees
    and_tree : KeyTree → Trees → Trees

unfoldable pub rd_u16 : Bytes → ℕ → Option ℕ
rd_u16 b off = Option.map from_le (slice b off 2)

-- `n` offsets, one in every `stride` bytes.
unfoldable pub read_offsets : ℕ → ℕ → Bytes → ℕ → Option (List ℕ)
read_offsets stride zero b off = some []
read_offsets stride (suc n) b off = do
  x ← rd_u32 b off
  xs ← read_offsets stride n b (off + stride)
  some (x ∷ xs)

unfoldable pub read_name : Bytes → ℕ → Option Bytes
unfolding rd_u16
read_name blob off = do n ← rd_u16 blob (4096 + off + 6); slice blob (4096 + off + 24) n

unfoldable pub read_named : Bytes → ℕ → Option (Bytes × (ℕ × Bytes))
unfolding read_name
read_named blob off = do name ← read_name blob off; v ← read_value blob off; some (name, v)

unfoldable pub read_values : Bytes → List ℕ → Option (List (Bytes × (ℕ × Bytes)))
unfolding read_named
read_values blob [] = some []
read_values blob (off ∷ offs) = do
  v ← read_named blob off
  vs ← read_values blob offs
  some (v ∷ vs)

-- The values by the number and the offset of the list of their offsets.
unfoldable pub values_at : Bytes → ℕ → ℕ → Option (List (Bytes × (ℕ × Bytes)))
unfolding read_offsets read_values
values_at blob n list = do offs ← read_offsets 4 n blob (4096 + list + 4); read_values blob offs

unfoldable pub read_trees : (ℕ → Option KeyTree) → List ℕ → Option Trees
read_trees read [] = some no_trees
read_trees read (off ∷ offs) = do t ← read off; ts ← read_trees read offs; some (and_tree t ts)

-- The subkeys by their number and the offset of the `lf` list, which says the number again.
unfoldable pub trees_at : (ℕ → Option KeyTree) → Bytes → ℕ → ℕ → Option Trees
unfolding read_offsets read_trees rd_u16
trees_at read blob zero list = some no_trees
trees_at read blob (suc n) list = do
  signature ← slice blob (4096 + list + 4) 2
  again ← rd_u16 blob (4096 + list + 6)
  offs ← read_offsets 8 (suc n) blob (4096 + list + 8)
  ts ← read_trees read offs
  if text_eq signature (codes "lf") && again == suc n then some ts else none

-- The fuel bounds the depth of the keys.
unfoldable pub read_key : ℕ → Bytes → ℕ → Option KeyTree
unfolding rd_u16 values_at trees_at
read_key zero blob off = none
read_key (suc fuel) blob off = do
  signature ← slice blob (4096 + off + 4) 2
  written ← rd_u64 blob (4096 + off + 8)
  n_sub ← rd_u32 blob (4096 + off + 24)
  sub_list ← rd_u32 blob (4096 + off + 32)
  n_values ← rd_u32 blob (4096 + off + 40)
  value_list ← rd_u32 blob (4096 + off + 44)
  name_len ← rd_u16 blob (4096 + off + 76)
  name ← slice blob (4096 + off + 80) name_len
  vals ← values_at blob n_values value_list
  subs ← trees_at (read_key fuel blob) blob n_sub sub_list
  if text_eq signature (codes "nk") then some (tree name written vals subs) else none

-- What should be read of a value, of a key and of its subkeys.
abbrev pub value_entry : ValueSpec → Bytes × (ℕ × Bytes)
value_entry v = (as_bytes v.name, (v.type_raw, v.bytes))

unfoldable mutual
  pub tree_of : KeySpec → KeyTree
  tree_of (key name last_written vals subkeys) =
      tree (as_bytes name) last_written (map value_entry vals) (trees_of subkeys)

  pub trees_of : Subkeys → Trees
  trees_of no_keys = no_trees
  trees_of (and_key k ks) = and_tree (tree_of k) (trees_of ks)

unfoldable mutual
  pub depth : KeySpec → ℕ
  depth (key name last_written vals subkeys) = suc (depths subkeys)

  pub depths : Subkeys → ℕ
  depths no_keys = 0
  depths (and_key k ks) = max (depth k) (depths ks)

-- A name whose size has 16 bits.
abbrev pub IsNamed : ValueSpec → Type 0
IsNamed v = IsValue v × (length (as_bytes v.name) < 2 ^ 16)

-- A key with the widths of the code, and its subkeys too; the `lf` list counts subkeys in 16 bits.
unfoldable mutual
  pub IsKey : KeySpec → Type 0
  IsKey (key name last_written vals subkeys) =
      (length (as_bytes name) < 2 ^ 16)
      × ((last_written < 2 ^ 64)
          × ((count subkeys < 2 ^ 16) × (All IsNamed vals × AreKeys subkeys)))

  pub AreKeys : Subkeys → Type 0
  AreKeys no_keys = Unit
  AreKeys (and_key k ks) = IsKey k × AreKeys ks
