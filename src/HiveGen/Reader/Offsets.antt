-- ===== src/HiveGen/Reader/Offsets.antt =====
-- Lists of offsets are read back from the cells that hold them.
use native.Mathlib.Nat.{mul-suc}
use vgi_reghive.Base.{ℕ, zero, suc, ◌+◌, ◌*◌, ◌^◌, ◌≤◌, ◌<◌, ◌≡◌, refl, sym, ap, ◌∙◌, some, List}
use vgi_reghive.Base.{[], ◌∷◌, ◌++◌, append_assoc, arith, ◌>>=◌, length, All, slice}
use vgi_reghive.Base.{slice-append_skip, slice-append_at, length-append, Bytes, Text}
use vgi_reghive.Base.Words.{to_le, from_le-to_le, length-to_le}
use vgi_reghive.BaseBlock.{rd_u32}
use vgi_reghive.HiveGen.Layout.{offset_list, lf_entries, hint}
use vgi_reghive.HiveGen.Layout.Lists.{length-offset_list, length-lf_entries, length-hint}
use vgi_reghive.HiveGen.Reader.{read_offsets}

-- Offsets read from a part of a blob are those of the part.
pub read_offsets_moved :
    (stride n base i lim : ℕ) (b c : Bytes)
    → 4 ≤ stride
    → ((k m : ℕ) → k + m ≤ lim → slice b (base + k) m ≡ slice c k m)
    → i + stride * n ≤ lim
    → read_offsets stride n b (base + i) ≡ read_offsets stride n c i
unfolding read_offsets rd_u32
read_offsets_moved stride zero base i lim b c s h k = refl
read_offsets_moved stride (suc n) base i lim b c s h k =
    let there : stride * suc n ≡ stride * n + stride = mul-suc stride n in
    let next : base + i + stride ≡ base + (i + stride) = omega arith in
    rw
      (
        h i 4 (omega (arith, there, k, s)),
        next,
        read_offsets_moved stride n base (i + stride) lim b c s h (omega (arith, there, k)),
      )
      refl

-- An offset at the front.
rd_u32_front : (x : ℕ) (rest : Bytes) → x < 2 ^ 32 → rd_u32 (to_le 4 x ++ rest) 0 ≡ some x
unfolding rd_u32 to_le
rd_u32_front x rest h = rw (slice-append_at [] (to_le 4 x) rest) (ap some (from_le-to_le 4 x h))

-- A word, a gap and the rest, as long as the stride: the word and then the offsets in the rest.
read_offsets_step :
    (stride n x : ℕ) (gap rest : Bytes)
    → 4 + length gap ≡ stride
    → x < 2 ^ 32
    → stride * n ≤ length rest
    → read_offsets stride (suc n) (to_le 4 x ++ (gap ++ rest)) 0
      ≡ (read_offsets stride n rest 0 >>= λ xs. some (x ∷ xs))
unfolding read_offsets
read_offsets_step stride n x gap rest e h k =
    let front = to_le 4 x ++ gap in
    let whole : to_le 4 x ++ (gap ++ rest) ≡ front ++ rest =
      sym (append_assoc (to_le 4 x) gap rest) in
    let len : length front ≡ stride =
      omega (arith, length-append (to_le 4 x) gap, length-to_le 4 x, e) in
    let at : 0 + stride ≡ length front + 0 = omega (arith, len) in
    rw (rd_u32_front x (gap ++ rest) h, whole, at)
      (rw
        (read_offsets_moved stride n (length front) 0 (length rest) (front ++ rest) rest
          (omega (arith, e)) (λ i m q. slice-append_skip front rest i m) (omega (arith, k)))
        refl)

-- The offsets of values.
pub read_offsets-offset_list :
    (offs : List ℕ)
    → All (λ x. x < 2 ^ 32) offs
    → read_offsets 4 (length offs) (offset_list offs) 0 ≡ some offs
unfolding offset_list
read_offsets-offset_list [] h = unfold read_offsets in refl
read_offsets-offset_list (x ∷ offs) (h, hs) =
    read_offsets_step 4 (length offs) x [] (offset_list offs) refl h
      (omega (arith, length-offset_list offs))
    ∙ rw (read_offsets-offset_list offs hs) refl

abbrev pub IsOffset : ℕ × Text → Type 0
IsOffset c = c.0 < 2 ^ 32

abbrev pub offsets_in : List (ℕ × Text) → List ℕ
offsets_in [] = []
offsets_in (c ∷ child) = c.0 ∷ offsets_in child

-- The offsets of subkeys; each has a hint of the name behind it.
pub read_offsets-lf_entries :
    (child : List (ℕ × Text))
    → All IsOffset child
    → read_offsets 8 (length child) (lf_entries child) 0 ≡ some (offsets_in child)
unfolding lf_entries
read_offsets-lf_entries [] h = unfold read_offsets in refl
read_offsets-lf_entries ((x, name) ∷ child) (h, hs) =
    read_offsets_step 8 (length child) x (hint name) (lf_entries child)
      (omega (arith, length-hint name)) h (omega (arith, length-lf_entries child))
    ∙ rw (read_offsets-lf_entries child hs) refl
