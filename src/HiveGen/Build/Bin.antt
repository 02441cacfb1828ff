-- ===== src/HiveGen/Build/Bin.antt =====
-- The bin of a built hive: its cells tile it behind the header, and all the copies fit and are kept.
use vgi_reghive.Base.{ℕ, ◌+◌, ◌-◌, ◌%◌, ◌^◌, ◌≤◌, ◌<◌, ◌≡◌, sym, ◌⊎◌, inl, inr, true, List, []}
use vgi_reghive.Base.{◌∷◌, ◌++◌, arith, ltb, if◌then◌else◌, ltb→lt, Bool-cases, length, replicate}
use vgi_reghive.Base.{All, All-append, length-replicate, Bytes, codes, All-mono}
use vgi_reghive.HiveGen.Layout.Orphans.{orphans_space-units, orphans_space}
use vgi_reghive.HiveGen.Layout.Orphans.{layout_orphans-Extends}
use vgi_reghive.HiveGen.Layout.Sizes.{room_first, room_rest}
use vgi_reghive.HiveGen.Layout.Keys.{key_space, key_space-units, layout_key-grows}
use vgi_reghive.HiveGen.Layout.Tiles.{Tiles, IsCell, Extends-trans, HasRoom}
use vgi_reghive.HiveGen.Layout.{Layout, layout_key, layout_orphans, new_layout}
use vgi_reghive.HiveGen.Spec.{HiveSpec}
use vgi_reghive.HiveGen.Build.{whole_layout, hbin_size, hbin_writes}
use vgi_reghive.Base.Words.{to_le, length-to_le}
use vgi_reghive.Base.Writes.{Apart, IsApart, IsApart-append, Fits, AllWritten}
use vgi_reghive.Base.Writes.{write_each-AllWritten}
use mathlib.Core.Path.{subst}

-- The bytes of all the cells of a hive.
abbrev pub hive_space : HiveSpec → ℕ
hive_space spec = key_space spec.root + orphans_space spec.deleted_orphans

-- The cells of a hive, which come to less than 2^32 - 48 bytes, lie in units of eight bytes between
-- the header of the bin, 32 bytes long, and the end of the layout; no two of them overlap, and they
-- leave no gap: together they take exactly the space of the root key and of the deleted keys. Each
-- begins with its size, as it is or negated.
pub whole_layout-Tiles :
    (spec : HiveSpec)
    → hive_space spec + 48 < 2 ^ 32
    → Tiles 32 (whole_layout spec).0.next (whole_layout spec).0.cells
      × ((whole_layout spec).0.next ≡ 32 + hive_space spec)
unfolding whole_layout
whole_layout-Tiles spec h =
    let room : HasRoom new_layout (hive_space spec) = record {
      aligned = omega arith;
      room = omega arith;
    } in
    let e1 = layout_key-grows spec.root new_layout 0 true (room_first _ room) in
    let lay1 = (layout_key spec.root new_layout 0 true).0 in
    let e = Extends-trans e1 (
      layout_orphans-Extends lay1 spec.deleted_orphans
        (room_rest room e1 (key_space-units spec.root))) in
    (
      subst (Tiles 32 (layout_orphans lay1 spec.deleted_orphans).next) (sym e.cells) e.tiles,
      e.grows,
    )

pub hive_space-units : (spec : HiveSpec) → hive_space spec % 8 ≡ 0
hive_space-units spec =
    omega (arith, key_space-units spec.root, orphans_space-units spec.deleted_orphans)

-- The free cell behind the cells.
abbrev trailer : Layout → List (ℕ × Bytes)
trailer lay =
    if ltb lay.next (hbin_size lay.next)
    then (lay.next, to_le 4 (hbin_size lay.next - lay.next)) ∷ []
    else []

-- A write between the header and the end of the bin.
abbrev InBin : ℕ → ℕ × Bytes → Type 0
InBin size w = (32 ≤ w.0) × (w.0 + length w.1 ≤ size)

hbin_size_bounds :
    (used : ℕ)
    → used + 4096 < 2 ^ 32
    → (used ≤ hbin_size used) × ((hbin_size used % 4096 ≡ 0) × (8192 ≤ hbin_size used))
unfolding hbin_size
hbin_size_bounds used h = ground arith

module _ (lay : Layout) (t : Tiles 32 lay.next lay.cells) (al : lay.next % 8 ≡ 0)
    (h : lay.next + 4096 < 2 ^ 32) where
  abbrev size : ℕ
  size = hbin_size lay.next

  abbrev behind : List (ℕ × Bytes)
  behind = lay.cells ++ trailer lay

  end_len : length (to_le 4 (size - lay.next)) ≡ 4
  end_len = length-to_le 4 (size - lay.next)

  trailer_case :
      (trailer lay ≡ [])
      ⊎ ((trailer lay ≡ (lay.next, to_le 4 (size - lay.next)) ∷ []) × (lay.next < size))
  trailer_case = elim (Bool-cases (ltb lay.next size)) [
    | inl e ↦ inr (rw e, ltb→lt _ _ e)
    | inr e ↦ inl (rw e)
  ]

  trailer-InBin : All (InBin size) (trailer lay)
  trailer-InBin = elim trailer_case [
    | inl e ↦ subst (All (InBin size)) (sym e) tt
    | inr (e, l) ↦
        subst (All (InBin size)) (sym e) (
          (omega (arith, t.filled), omega (arith, end_len, al, hbin_size_bounds lay.next h, l)),
          tt,
        )
  ]

  trailer-IsApart : IsApart (trailer lay)
  trailer-IsApart = elim trailer_case [
    | inl e ↦ subst IsApart (sym e) tt
    | inr (e, l) ↦ subst IsApart (sym e) (tt, tt)
  ]

  -- A cell ends before the trailer.
  cell_trailer : (c : ℕ × Bytes) → IsCell 32 lay.next c → All (Apart c) (trailer lay)
  cell_trailer c k = elim trailer_case [
    | inl e ↦ subst (All (Apart c)) (sym e) tt
    | inr (e, l) ↦ subst (All (Apart c)) (sym e) (inl k.to, tt)
  ]

  behind-InBin : All (InBin size) behind
  behind-InBin =
      All-append (InBin size) lay.cells (trailer lay)
        (All-mono
          (λ (c : ℕ × Bytes) (k : IsCell 32 lay.next c).
            (k.from, omega (arith, k.to, hbin_size_bounds lay.next h)))
          lay.cells t.within)
        trailer-InBin

  behind-IsApart : IsApart behind
  behind-IsApart =
      IsApart-append lay.cells (trailer lay) t.apart trailer-IsApart
        (All-mono cell_trailer lay.cells t.within)

  -- What ends within the header is apart from all that is behind it.
  head-Apart : (off : ℕ) (s : Bytes) → off + length s ≤ 32 → All (Apart (off, s)) behind
  head-Apart off s k =
      All-mono (λ (w : ℕ × Bytes) (i : InBin size w). inl (omega (arith, k, i.0))) behind
        behind-InBin

  hbin-IsApart : IsApart (hbin_writes lay)
  unfolding hbin_writes
  hbin-IsApart = (
    (inl (omega arith), (inl (omega arith), head-Apart 0 (codes "hbin") (omega arith))),
    (
      (
        inl (omega (arith, length-to_le 4 0)),
        head-Apart 4 (to_le 4 0) (omega (arith, length-to_le 4 0)),
      ),
      (head-Apart 8 (to_le 4 size) (omega (arith, length-to_le 4 size)), behind-IsApart),
    ),
  )

  hbin-Fits : All (Fits size) (hbin_writes lay)
  unfolding hbin_writes
  hbin-Fits =
      let big = hbin_size_bounds lay.next h in
      (
        omega (arith, big),
        (
          omega (arith, big, length-to_le 4 0),
          (
            omega (arith, big, length-to_le 4 size),
            All-mono (λ (w : ℕ × Bytes) (i : InBin size w). i.1) behind behind-InBin,
          ),
        ),
      )

  -- No copy into the bin is out of its range, and none touches another.
  pub hbin-AllWritten : (hbin : Bytes) × AllWritten (replicate size 0) (hbin_writes lay) hbin
  hbin-AllWritten =
      write_each-AllWritten (hbin_writes lay) (replicate size 0)
        (subst (λ (n : ℕ). All (Fits n) (hbin_writes lay)) (sym (length-replicate {A = ℕ} size 0))
          hbin-Fits)
        hbin-IsApart
