-- ===== src/HiveGen/Build/Tree.antt =====
-- The whole tree of keys is read back from a built hive.
use vgi_reghive.Base.{All-front, ℕ, ◌≤◌, ◌≡◌, true, some, arith, All, Bytes}
use vgi_reghive.HiveGen.Spec.{HiveSpec}
use vgi_reghive.HiveGen.Layout.{new_layout}
use vgi_reghive.HiveGen.Layout.Tiles.{HasRoom}
use vgi_reghive.HiveGen.Layout.Keys.{key_space}
use vgi_reghive.HiveGen.Layout.ReadBack.{Stands}
use vgi_reghive.HiveGen.Build.{build}
use vgi_reghive.HiveGen.Build.Root.{root_part}
use vgi_reghive.HiveGen.Build.RoundTrip.{IsSpec, build-cells}
use vgi_reghive.HiveGen.Reader.{read_key, tree_of, depth, IsKey}
use vgi_reghive.HiveGen.Reader.Whole.{key-back}
use mathlib.Core.Path.{subst}

-- A reader of the format, with as much fuel as the keys are deep, reads back from the blob of a spec, at the offset of the root cell, the spec's whole tree of keys: of each key its name, the time of its last write, its values with their names, types and data, and its subkeys, all in their order. The numbers and names are to fit the fields of the format.
pub read_key-build :
    (spec : HiveSpec) (blob : Bytes) (fuel : ℕ)
    → IsSpec spec
    → IsKey spec.root
    → depth spec.root ≤ fuel
    → build spec ≡ some blob
    → read_key fuel blob 32 ≡ some (tree_of spec.root)
read_key-build spec blob fuel h keys d e =
    let (new, parts) = root_part spec (omega (arith, h.space)) in
    let whole = subst (All (Stands blob)) parts (build-cells spec blob h e) in
    let room : HasRoom new_layout (key_space spec.root) = record {
      aligned = omega arith;
      room = omega (arith, h.space);
    } in
    key-back fuel spec.root new_layout 0 true blob room keys d (All-front (Stands blob) _ new whole)
