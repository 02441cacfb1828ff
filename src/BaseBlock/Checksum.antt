-- ===== src/BaseBlock/Checksum.antt =====
-- `xor32_checksum` of crates/reghive-core/src/baseblock.rs and its laws.
use Prim.Native.Nat.{bit_xor}
use vgi_reghive.Base.{ℕ, zero, suc, ◌+◌, ◌*◌, ◌≤◌, ◌<◌, ◌^◌, ◌≡◌, ◌≢◌, refl, sym, ap, ◌∙◌, arith}
use vgi_reghive.Base.{Option, none, some, [], ◌∷◌, ◌++◌, Bytes, IsByte, All, All-drop, length}
use vgi_reghive.Base.{take, drop, take-drop-append, length-append, ltb, ◌==◌, if◌then◌else◌, ◌⊎◌}
use vgi_reghive.Base.{inl, inr}
use vgi_reghive.Base.Words.{from_le}
use native.Mathlib.Decide.{ℕ_discrete}
use mathlib.Core.Option.{some-injective}
use vgi_reghive.Base.Xor.{bit_xor-lt, bit_xor_comm, bit_xor_assoc, bit_xor_cancel, zero-bit_xor}

abbrev pub checksum_offset : ℕ
checksum_offset = 508

-- `u32::from_le_bytes([blob[off], …, blob[off + 3]])`, for `off + 4` within the blob.
abbrev pub dword_at : Bytes → ℕ → ℕ
dword_at blob off = from_le (take 4 (drop off blob))

-- The `while off < 508` loop, with the rounds that are left: `off` is 508 - 4 * rounds.
unfoldable pub checksum_loop : ℕ → Bytes → ℕ → ℕ → ℕ
checksum_loop zero blob off acc = acc
checksum_loop (suc n) blob off acc =
    checksum_loop n blob (off + 4) (bit_xor acc (dword_at blob off))

unfoldable pub sentinel : ℕ → ℕ
sentinel acc = if acc == 0 then 1 else if acc == 0xffff_ffff then 0xffff_fffe else acc

unfoldable pub xor32_checksum : Bytes → Option ℕ
xor32_checksum blob =
    if ltb (length blob) checksum_offset then none else some (sentinel (checksum_loop 127 blob 0 0))

dword-lt : (bs : Bytes) → All IsByte bs → from_le (take 4 bs) < 2 ^ 32
unfolding from_le
dword-lt [] h = omega arith
dword-lt (a ∷ []) h = omega arith
dword-lt (a ∷ b ∷ []) h = omega arith
dword-lt (a ∷ b ∷ c ∷ []) h = omega arith
dword-lt (a ∷ b ∷ c ∷ d ∷ bs) (ha, (hb, (hc, (hd, h)))) = omega arith

checksum_loop-lt :
    (n : ℕ) (blob : Bytes) (off acc : ℕ)
    → All IsByte blob
    → acc < 2 ^ 32
    → checksum_loop n blob off acc < 2 ^ 32
unfolding checksum_loop
checksum_loop-lt zero blob off acc h k = k
checksum_loop-lt (suc n) blob off acc h k =
    checksum_loop-lt n blob (off + 4) _ h
      (bit_xor-lt 32 acc _ k (dword-lt (drop off blob) (All-drop IsByte off blob h)))

sentinel_bounds : (acc : ℕ) → acc < 2 ^ 32 → (1 ≤ sentinel acc) × (sentinel acc < 0xffff_ffff)
unfolding sentinel
sentinel_bounds acc h = ground arith

-- A checksum of bytes is neither 0 nor the largest u32, and fits 32 bits.
pub xor32_checksum_bounds :
    (blob : Bytes) (c : ℕ)
    → All IsByte blob
    → xor32_checksum blob ≡ some c
    → (1 ≤ c) × (c < 0xffff_ffff)
unfolding xor32_checksum
xor32_checksum_bounds blob c h e =
    let k = checksum_loop-lt 127 blob 0 0 h (omega arith) in
    ground (arith, sentinel_bounds (checksum_loop 127 blob 0 0) k)

checksum_loop-append :
    (n : ℕ) (front back : Bytes) (off acc : ℕ)
    → off + 4 * n ≤ length front
    → checksum_loop n (front ++ back) off acc ≡ checksum_loop n front off acc
unfolding checksum_loop
checksum_loop-append zero front back off acc h = refl
checksum_loop-append (suc n) front back off acc h =
    rw (take-drop-append 4 off front back (omega arith))
      (checksum_loop-append n front back (off + 4) _ (omega arith))

-- Bytes behind the first 508, the stored checksum too, do not change the checksum.
pub xor32_checksum-append :
    (front back : Bytes)
    → checksum_offset ≤ length front
    → xor32_checksum (front ++ back) ≡ xor32_checksum front
unfolding xor32_checksum
xor32_checksum-append front back h =
    rw (checksum_loop-append 127 front back 0 0 (omega arith))
      (ground (arith, length-append front back))

pub xor32_checksum_total :
    (blob : Bytes)
    → checksum_offset ≤ length blob
    → xor32_checksum blob ≡ some (sentinel (checksum_loop 127 blob 0 0))
unfolding xor32_checksum
xor32_checksum_total blob h = ground arith

-- The accumulator can be taken out of the loop.
checksum_loop-acc :
    (n : ℕ) (blob : Bytes) (off acc : ℕ)
    → checksum_loop n blob off acc ≡ bit_xor acc (checksum_loop n blob off 0)
unfolding checksum_loop
checksum_loop-acc zero blob off acc = sym (bit_xor_comm acc 0 ∙ zero-bit_xor acc)
checksum_loop-acc (suc n) blob off acc =
    checksum_loop-acc n blob (off + 4) (bit_xor acc (dword_at blob off))
    ∙ bit_xor_assoc acc (dword_at blob off) _
    ∙ ap (bit_xor acc) (
        sym (
          checksum_loop-acc n blob (off + 4) _
          ∙ ap (λ (t : ℕ). bit_xor t (checksum_loop n blob (off + 4) 0))
              (zero-bit_xor (dword_at blob off))))

-- Of the 127 dwords in front of the stored checksum, both blobs have the same, but for the one at
-- `4 * k`.
abbrev pub DiffersAt : ℕ → Bytes → Bytes → Type 0
DiffersAt k a b =
    (dword_at a (4 * k) ≢ dword_at b (4 * k))
    × ((j : ℕ) → j < 127 → j ≢ k → dword_at a (4 * j) ≡ dword_at b (4 * j))

loop_same :
    (n i acc : ℕ) (k : ℕ) (a b : Bytes)
    → DiffersAt k a b
    → k < i
    → i + n ≤ 127
    → checksum_loop n a (4 * i) acc ≡ checksum_loop n b (4 * i) acc
unfolding checksum_loop
loop_same zero i acc k a b d h w = refl
loop_same (suc n) i acc k a b d h w =
    let e : 4 * i + 4 ≡ 4 * (i + 1) = omega arith in
    rw (e, d.1 i (omega arith) (omega arith))
      (loop_same n (i + 1) _ k a b d (omega arith) (omega arith))

loop_injective :
    (n : ℕ) (blob : Bytes) (off p q : ℕ)
    → checksum_loop n blob off p ≡ checksum_loop n blob off q
    → p ≡ q
loop_injective n blob off p q e =
    let r = checksum_loop n blob off 0 in
    bit_xor_cancel r p q (
      bit_xor_comm r p
      ∙ sym (checksum_loop-acc n blob off p)
      ∙ e
      ∙ checksum_loop-acc n blob off q
      ∙ bit_xor_comm q r)

-- One changed dword changes what the loop accumulates.
loop_detects :
    (n i acc k : ℕ) (a b : Bytes)
    → DiffersAt k a b
    → i ≤ k
    → k < i + n
    → i + n ≤ 127
    → checksum_loop n a (4 * i) acc ≢ checksum_loop n b (4 * i) acc
unfolding checksum_loop
loop_detects zero i acc k a b d h l w eq = absurd (omega arith)
loop_detects (suc n) i acc k a b d h l w eq = elim (ℕ_discrete i k) [
  | yes e ↦
      let next : 4 * i + 4 ≡ 4 * (i + 1) = omega arith in
      let xb = bit_xor acc (dword_at b (4 * i)) in
      let same = loop_same n (i + 1) xb k a b d (omega arith) (omega arith) in
      let eq' : checksum_loop n a (4 * i + 4) (bit_xor acc (dword_at a (4 * i)))
          ≡ checksum_loop n a (4 * i + 4) xb =
        eq ∙ rw next (sym same) in
      d.0 (rw (← e) (bit_xor_cancel acc _ _ (loop_injective n a (4 * i + 4) _ _ eq')))
  | no ne ↦
      let next : 4 * i + 4 ≡ 4 * (i + 1) = omega arith in
      loop_detects n (i + 1) (bit_xor acc (dword_at b (4 * i))) k a b d (omega arith) (omega arith)
        (omega arith) (rw (← next) (rw (d.1 i (omega arith) ne) at eq))
]

-- Two accumulated values with one checksum are equal, or both lie at a reserved value.
sentinel_collision :
    (p q : ℕ)
    → sentinel p ≡ sentinel q
    → (p ≡ q) ⊎ ((p < 2) × (q < 2)) ⊎ ((0xffff_fffd < p) × (0xffff_fffd < q))
unfolding sentinel
sentinel_collision p q e = ground arith

-- Two blobs of 508 bytes at least, which differ in exactly one of the first 127 dwords, whatever comes
-- behind those, have different checksums, where the accumulated value of the first is none of the four that the sentinels move
-- together: 0 and 1, or the two largest.
pub xor32_checksum_detects :
    (a b : Bytes) (k : ℕ)
    → checksum_offset ≤ length a
    → checksum_offset ≤ length b
    → k < 127
    → DiffersAt k a b
    → 2 ≤ checksum_loop 127 a 0 0
    → checksum_loop 127 a 0 0 < 0xffff_fffe
    → xor32_checksum a ≢ xor32_checksum b
xor32_checksum_detects a b k la lb h d lo hi e =
    elim (sentinel_collision _ _ (some-injective _ _ equal)) [
      | inl same ↦ loop_detects 127 0 0 k a b d (omega arith) (omega arith) (omega arith) same
      | inr (inl low) ↦ absurd (omega arith)
      | inr (inr high) ↦ absurd (omega arith)
    ]
  where
    equal : some (sentinel (checksum_loop 127 a 0 0)) ≡ some (sentinel (checksum_loop 127 b 0 0))
    equal = sym (xor32_checksum_total a la) ∙ e ∙ xor32_checksum_total b lb
