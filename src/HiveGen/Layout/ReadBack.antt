-- ===== src/HiveGen/Layout/ReadBack.antt =====
-- A value that has been laid out is read back from a blob that has its cells.
use vgi_reghive.Base.{ℕ, zero, suc, ◌+◌, ◌-◌, ◌^◌, ◌≤◌, ◌<◌, ◌≡◌, refl, sym, ap, ◌∙◌, inl, inr}
use vgi_reghive.Base.{Bool, true, Option, some, List, [], ◌∷◌, ◌++◌, arith, leb, ◌==◌}
use vgi_reghive.Base.{if◌then◌else◌, leb→le, le→leb, Bool-cases, ◌>>=◌, length, take, drop}
use vgi_reghive.Base.{replicate, All, All-append, All-take, slice, slice_within, slice-append}
use vgi_reghive.Base.{slice-append_skip, length-append, length-take, take-append}
use vgi_reghive.Base.{take-drop-append, drop-add, Bytes, IsByte, take-drop}
use vgi_reghive.BaseBlock.{rd_u32}
use vgi_reghive.Base.Words.{to_le, from_le, from_le-to_le, to_le-from_le, length-to_le}
use vgi_reghive.HiveGen.Spec.{ValueSpec}
use vgi_reghive.HiveGen.Cells.{as_u32, resize, cell_with_sign, cell_size, alloc_cell, vk_payload}
use vgi_reghive.HiveGen.Cells.{data_is_resident_mask}
use vgi_reghive.HiveGen.Cells.Sizes.{padded, cell_size-padded, length-vk_payload}
use vgi_reghive.HiveGen.Cells.Sizes.{length-cell_with_sign, take-take, take-all}
use vgi_reghive.HiveGen.Layout.{Layout, emit, inline, layout_value}
use vgi_reghive.HiveGen.Layout.Tiles.{HasRoom}
use vgi_reghive.HiveGen.Layout.Sizes.{value_space, layout_value_apart}
use Prim.Native.Nat.{bit_or}
use mathlib.Core.Option.{some-injective}

-- The cell stands in the blob, behind the base block.
abbrev pub Stands : Bytes → ℕ × Bytes → Type 0
Stands blob c = slice blob (4096 + c.0) (length c.1) ≡ some c.1

-- The type and the data of the value whose `vk` cell is at the offset, as the format of hives has
-- them: in the place of the offset if the highest bit of the size is set, in a cell of their own
-- otherwise.
data_of : Bytes → ℕ → Bytes → Option Bytes
data_of blob size word =
    if leb (2 ^ 31) size
    then some (take (size - 2 ^ 31) word)
    else if size == 0
    then some []
    else slice blob (4096 + from_le word + 4) size

unfoldable pub read_value : Bytes → ℕ → Option (ℕ × Bytes)
unfolding data_of
read_value blob off = do
  size ← rd_u32 blob (4096 + off + 8)
  word ← slice blob (4096 + off + 12) 4
  type_raw ← rd_u32 blob (4096 + off + 16)
  bytes ← data_of blob size word
  some (type_raw, bytes)

slice_bound : (b c : Bytes) (k n : ℕ) → slice b k n ≡ some c → k + n ≤ length b
unfolding slice
slice_bound b c k n e = ground arith

-- A part of a part.
slice-slice :
    (b c : Bytes) (k n i m : ℕ)
    → slice b k n ≡ some c
    → length c ≡ n
    → i + m ≤ n
    → slice b (k + i) m ≡ slice c i m
slice-slice b c k n i m e len h =
    let bound = slice_bound b c k n e in
    let front : take n (drop k b) ≡ c = some-injective _ _ (sym (slice_within b k n bound) ∙ e) in
    let whole : drop k b ≡ c ++ drop n (drop k b) =
      sym (take-drop n (drop k b)) ∙ ap (λ (t : Bytes). t ++ drop n (drop k b)) front in
    slice_within b (k + i) m (omega arith)
    ∙ ap (λ (t : Bytes). some (take m t)) (drop-add k i b ∙ ap (drop i) whole)
    ∙ ap some (take-drop-append m i c (drop n (drop k b)) (omega arith))
    ∙ sym (slice_within c i m (omega arith))

module _ (payload : Bytes) (allocated : Bool) (h : length payload + 11 < 2 ^ 32) where
  resized :
      (total signed : ℕ)
      → total ≡ padded (length payload)
      → (i m : ℕ) → i + m ≤ length payload
      → slice (resize total (to_le 4 signed ++ payload)) (4 + i) m ≡ slice payload i m
  resized total signed e i m k =
      let w = to_le 4 signed in
      let len : length (w ++ payload) ≡ 4 + length payload =
        omega (arith, length-append w payload, length-to_le 4 signed) in
      slice-append (take total (w ++ payload)) _ (4 + i) m
        (omega (arith, length-take total (w ++ payload), len, e))
      ∙ ap (λ (t : Bytes). slice t (4 + i) m)
          (take-all total (w ++ payload) (omega (arith, len, e)))
      ∙ ap (λ (t : ℕ). slice (w ++ payload) (t + i) m) (sym (length-to_le 4 signed))
      ∙ slice-append_skip w payload i m

  -- Behind its size a cell has its payload.
  slice-cell :
      (i m : ℕ)
      → i + m ≤ length payload
      → slice (cell_with_sign payload allocated) (4 + i) m ≡ slice payload i m
  slice-cell i m k =
      unfold cell_with_sign in
      resized _ _ (ap cell_size (omega arith) ∙ cell_size-padded (length payload) h) i m k

  pub Stands-payload :
      (blob : Bytes) (off i m : ℕ)
      → Stands blob (off, cell_with_sign payload allocated)
      → i + m ≤ length payload
      → slice blob (4096 + off + (4 + i)) m ≡ slice payload i m
  Stands-payload blob off i m s k =
      slice-slice blob (cell_with_sign payload allocated) (4096 + off) _ (4 + i) m s refl
        (omega (arith, k, length-cell_with_sign payload allocated h))
      ∙ slice-cell i m k

bit_or_resident : (n : ℕ) → n ≤ 4 → bit_or n 0x8000_0000 ≡ 0x8000_0000 + n
bit_or_resident zero h = refl
bit_or_resident (suc zero) h = refl
bit_or_resident (suc (suc zero)) h = refl
bit_or_resident (suc (suc (suc zero))) h = refl
bit_or_resident (suc (suc (suc (suc zero)))) h = refl
bit_or_resident (suc (suc (suc (suc (suc n))))) h = absurd (omega arith)

-- The words of a `vk` cell that stands in the blob.
module _ (blob : Bytes) (v : ValueSpec) (size word off : ℕ)
    (h : length (vk_payload v size word) + 11 < 2 ^ 32)
    (s : Stands blob (off, cell_with_sign (vk_payload v size word) true)) where
  vk_part :
      (i m : ℕ)
      → i + m ≤ 20
      → slice blob (4096 + off + (4 + i)) m ≡ some (take m (drop i (vk_payload v size word)))
  vk_part i m k =
      let len = length-vk_payload v size word in
      Stands-payload (vk_payload v size word) true h blob off i m s (omega (arith, len))
      ∙ slice_within (vk_payload v size word) i m (omega (arith, len))

  read_size : size < 2 ^ 32 → rd_u32 blob (4096 + off + 8) ≡ some size
  unfolding rd_u32 vk_payload to_le
  read_size k = rw (vk_part 4 4 (omega arith)) (ap some (from_le-to_le 4 size k))

  read_word : slice blob (4096 + off + 12) 4 ≡ some (to_le 4 word)
  unfolding vk_payload to_le
  read_word = vk_part 8 4 (omega arith)

  read_type : v.type_raw < 2 ^ 32 → rd_u32 blob (4096 + off + 16) ≡ some v.type_raw
  unfolding rd_u32 vk_payload to_le
  read_type k = rw (vk_part 12 4 (omega arith)) (ap some (from_le-to_le 4 v.type_raw k))

  read_vk :
      (bytes : Bytes)
      → size < 2 ^ 32
      → v.type_raw < 2 ^ 32
      → data_of blob size (to_le 4 word) ≡ some bytes
      → read_value blob off ≡ some (v.type_raw, bytes)
  unfolding read_value
  read_vk bytes k l e = rw (read_size k, read_word, read_type l, e) refl

-- All cells of the layout stand in the blob.
abbrev pub AllStand : Bytes → Layout → Type 0
AllStand blob lay = All (Stands blob) lay.cells

pub All-last :
    (blob : Bytes) (xs : List (ℕ × Bytes)) (c : ℕ × Bytes)
    → All (Stands blob) (xs ++ c ∷ [])
    → All (Stands blob) xs × Stands blob c
All-last blob [] c (h, u) = (tt, h)
All-last blob (x ∷ xs) c (h, hs) = let (a, b) = All-last blob xs c hs in ((h, a), b)

pub emit-Stands :
    (blob : Bytes) (lay : Layout) (cell : Bytes)
    → AllStand blob (emit lay cell).0
    → AllStand blob lay × Stands blob ((emit lay cell).1, cell)
unfolding emit
emit-Stands blob lay cell h = All-last blob lay.cells (lay.next, cell) h

-- A value with the widths of the code; the highest bit of the size is the mark of resident data.
pub record IsValue (v : ValueSpec) : Type 0 where
  pub type_raw : v.type_raw < 2 ^ 32
  pub small : length v.bytes < 2 ^ 31
  pub bytes : All IsByte v.bytes

layout_value_short :
    (lay : Layout) (v : ValueSpec)
    → 0 < length v.bytes
    → length v.bytes ≤ 4
    → layout_value lay v
      ≡ emit lay (
          alloc_cell (
            vk_payload v (bit_or (as_u32 (length v.bytes)) data_is_resident_mask) (inline v.bytes)))
unfolding layout_value
layout_value_short lay v h k = ground arith

layout_value_empty :
    (lay : Layout) (v : ValueSpec)
    → length v.bytes ≡ 0
    → layout_value lay v ≡ emit lay (alloc_cell (vk_payload v 0 0xffff_ffff))
unfolding layout_value
layout_value_empty lay v h = ground arith

-- The data in the place of the offset.
inline_back :
    (bs : Bytes) → All IsByte bs → length bs ≤ 4 → take (length bs) (to_le 4 (inline bs)) ≡ bs
unfolding inline
inline_back bs h k =
    let w = take 4 (bs ++ replicate 4 0) in
    let len : length w ≡ 4 =
      omega (arith, length-take 4 (bs ++ replicate 4 0), length-append bs (replicate 4 0)) in
    let all : All IsByte w =
      All-take IsByte 4 _ (All-append IsByte bs (replicate 4 0) h (omega arith)) in
    let back : to_le 4 (from_le w) ≡ w =
      ap (λ (n : ℕ). to_le n (from_le w)) (sym len) ∙ to_le-from_le w all in
    ap (take (length bs)) back
    ∙ take-take (length bs) 4 (bs ++ replicate 4 0) k
    ∙ take-append bs (replicate 4 0)

data_resident :
    (blob word bytes : Bytes) (n : ℕ)
    → take n word ≡ bytes
    → data_of blob (2 ^ 31 + n) word ≡ some bytes
unfolding data_of
data_resident blob word bytes n e =
    rw (le→leb (2 ^ 31) (2 ^ 31 + n) (omega arith))
      (ap (λ (t : ℕ). some (take t word)) (omega arith) ∙ ap some e)

data_empty : (blob word bytes : Bytes) → length bytes ≡ 0 → data_of blob 0 word ≡ some bytes
unfolding data_of
data_empty blob word [] h = refl
data_empty blob word (b ∷ bytes) h = absurd (omega arith)

data_apart :
    (blob word : Bytes) (size : ℕ)
    → 0 < size
    → size < 2 ^ 31
    → data_of blob size word ≡ slice blob (4096 + from_le word + 4) size
unfolding data_of
data_apart blob word size h k = ground arith

module _ (lay : Layout) (v : ValueSpec) (blob : Bytes) (h : IsValue v)
    (room : HasRoom lay (value_space v)) where
  vk_room : (size word : ℕ) → length (vk_payload v size word) + 11 < 2 ^ 32
  vk_room size word = ground (arith, length-vk_payload v size word, room.room)

  -- The `vk` cell is emitted last.
  emitted :
      (before : Layout) (size word : ℕ)
      → layout_value lay v ≡ emit before (alloc_cell (vk_payload v size word))
      → size < 2 ^ 32
      → (AllStand blob before → data_of blob size (to_le 4 word) ≡ some v.bytes)
      → AllStand blob (layout_value lay v).0
      → read_value blob (layout_value lay v).1 ≡ some (v.type_raw, v.bytes)
  unfolding alloc_cell
  emitted before size word e k data_back s =
      let q = s in
      let (front, there) =
        emit-Stands blob before (alloc_cell (vk_payload v size word)) (rw e at q) in
      rw e (
        read_vk blob v size word (emit before (alloc_cell (vk_payload v size word))).1
          (vk_room size word) there v.bytes k h.type_raw (data_back front))

  inline_case :
      0 < length v.bytes
      → length v.bytes ≤ 4
      → AllStand blob (layout_value lay v).0
      → read_value blob (layout_value lay v).1 ≡ some (v.type_raw, v.bytes)
  inline_case p q s =
      let size : bit_or (as_u32 (length v.bytes)) data_is_resident_mask ≡ 2 ^ 31 + length v.bytes =
        ap (λ (n : ℕ). bit_or n data_is_resident_mask) (omega arith)
        ∙ bit_or_resident (length v.bytes) q in
      emitted lay _ (inline v.bytes) (layout_value_short lay v p q) (omega (arith, size))
        (λ front.
          ap (λ (t : ℕ). data_of blob t (to_le 4 (inline v.bytes))) size
          ∙ data_resident blob _ v.bytes (length v.bytes) (inline_back v.bytes h.bytes q))
        s

  empty_case :
      length v.bytes ≡ 0
      → AllStand blob (layout_value lay v).0
      → read_value blob (layout_value lay v).1 ≡ some (v.type_raw, v.bytes)
  empty_case p s =
      emitted lay 0 0xffff_ffff (layout_value_empty lay v p) (omega arith)
        (λ front. data_empty blob _ v.bytes p) s

  data_there :
      4 < length v.bytes
      → AllStand blob (emit lay (alloc_cell v.bytes)).0
      → slice blob (4096 + from_le (to_le 4 (emit lay (alloc_cell v.bytes)).1) + 4) (length v.bytes)
        ≡ some v.bytes
  data_there p front =
      let there = (emit-Stands blob lay (alloc_cell v.bytes) front).1 in
      let off = (emit lay (alloc_cell v.bytes)).1 in
      let off_back : from_le (to_le 4 off) ≡ off =
        from_le-to_le 4 off (unfold emit in omega (arith, room.room)) in
      ap (λ (t : ℕ). slice blob (4096 + t + 4) (length v.bytes)) off_back
      ∙ Stands-payload v.bytes true (omega (arith, h.small)) blob off 0 (length v.bytes)
          (unfold alloc_cell in there) (omega arith)
      ∙ slice_within v.bytes 0 (length v.bytes) (omega arith)
      ∙ ap some (take-all (length v.bytes) v.bytes (omega arith))

  apart_case :
      4 < length v.bytes
      → AllStand blob (layout_value lay v).0
      → read_value blob (layout_value lay v).1 ≡ some (v.type_raw, v.bytes)
  apart_case p s =
      let len : as_u32 (length v.bytes) ≡ length v.bytes = omega (arith, h.small) in
      emitted (emit lay (alloc_cell v.bytes)).0 (as_u32 (length v.bytes)) _
        (layout_value_apart lay v p (omega (arith, h.small))) (omega arith)
        (λ front.
          data_apart blob _ (as_u32 (length v.bytes)) (omega (arith, len))
            (omega (arith, len, h.small))
          ∙ ap (slice blob (4096 + from_le (to_le 4 (emit lay (alloc_cell v.bytes)).1) + 4)) len
          ∙ data_there p front)
        s

  -- A value with the widths of the code and fewer than 2^31 bytes is read back, type and data, from
  -- any blob in which the cells of the layout stand, by the offset that the layout gives: whether the
  -- data are resident, empty or in a cell of their own.
  pub read_value-layout_value :
      AllStand blob (layout_value lay v).0
      → read_value blob (layout_value lay v).1 ≡ some (v.type_raw, v.bytes)
  read_value-layout_value s = elim (Bool-cases (leb (length v.bytes) 4)) [
    | inl e ↦ elim (Bool-cases (length v.bytes == 0)) [
      | inl z ↦ empty_case (ground arith) s
      | inr z ↦ inline_case (ground arith) (leb→le _ _ e) s
    ]
    | inr e ↦ apart_case (ground arith) s
  ]
