-- ===== src/Base/Writes.antt =====
-- Writing slices into a buffer, `b[off..off + n].copy_from_slice(s)`, and reading them back.
use Prim.Native.Nat.{ℕ, ◌+◌, ◌-◌, ◌≤◌}
use vgi_reghive.Base.Tests.{leb, if◌then◌else◌, Bool-cases, Option-cases}
use vgi_reghive.Base.Lists.{length, take, drop, All, slice, slice-append, slice-append_skip}
use vgi_reghive.Base.Lists.{slice-append_at, length-append, length-take, length-drop, drop-add}
use vgi_reghive.Base.Lists.{All-take, All-drop, take-drop, All-append, All-mono}
use mathlib.Core.Path.{◌≡◌, refl, sym, ap, ◌∙◌, subst}
use mathlib.Core.Logic.{◌⊎◌, inl, inr}
use mathlib.Core.Option.{Option, none, some, some-injective}
use mathlib.Core.List.{List, [], ◌∷◌, ◌++◌, append_assoc}
use native.Mathlib.Omega.{arith}
use vgi_reghive.Base.Words.{Bytes, IsByte}

-- The copy, where the range lies within the buffer; `none` is the panic.
unfoldable pub write_at : Bytes → ℕ → Bytes → Option Bytes
write_at b off s =
    if leb (off + length s) (length b)
    then some (take off b ++ (s ++ drop (off + length s) b))
    else none

-- Copies one after another.
unfoldable pub write_each : Bytes → List (ℕ × Bytes) → Option Bytes
write_each b [] = some b
write_each b ((off, s) ∷ ws) = elim (write_at b off s) [ none ↦ none | some c ↦ write_each c ws ]

-- What a write within the buffer gives.
pub record Written (b : Bytes) (off : ℕ) (s c : Bytes) : Type 0 where
  pub result : write_at b off s ≡ some c
  pub same_length : length c ≡ length b
  pub here : slice c off (length s) ≡ some s
  pub below : (k n : ℕ) → k + n ≤ off → slice c k n ≡ slice b k n
  pub above : (k n : ℕ) → off + length s ≤ k → slice c k n ≡ slice b k n

slice-drop : (b : Bytes) (d k n : ℕ) → d ≤ length b → slice (drop d b) k n ≡ slice b (d + k) n
unfolding slice
slice-drop b d k n h = rw (drop-add d k b) (ground (arith, length-drop d b))

module _ (b : Bytes) (off : ℕ) (s : Bytes) (h : off + length s ≤ length b) where
  front_len : length (take off b) ≡ off
  front_len = omega (arith, length-take off b)

  whole_len : length (take off b ++ (s ++ drop (off + length s) b)) ≡ length b
  whole_len = omega (
    arith,
    length-append (take off b) (s ++ drop (off + length s) b),
    length-append s (drop (off + length s) b),
    length-drop (off + length s) b,
    front_len,
  )

  slice_here : slice (take off b ++ (s ++ drop (off + length s) b)) off (length s) ≡ some s
  slice_here =
      ap (λ (k : ℕ). slice (take off b ++ (s ++ drop (off + length s) b)) k (length s))
        (sym front_len)
      ∙ slice-append_at (take off b) s (drop (off + length s) b)

  slice_below :
      (k n : ℕ)
      → k + n ≤ off
      → slice (take off b ++ (s ++ drop (off + length s) b)) k n ≡ slice b k n
  slice_below k n p =
      slice-append (take off b) (s ++ drop (off + length s) b) k n (omega (arith, front_len))
      ∙ sym (slice-append (take off b) (drop off b) k n (omega (arith, front_len)))
      ∙ ap (λ (t : Bytes). slice t k n) (take-drop off b)

  slice_above :
      (k n : ℕ)
      → off + length s ≤ k
      → slice (take off b ++ (s ++ drop (off + length s) b)) k n ≡ slice b k n
  slice_above k n p =
      let d = k - (off + length s) in
      let e : k ≡ length (take off b ++ s) + d =
        omega (arith, front_len, length-append (take off b) s) in
      ap (λ (t : Bytes). slice t k n) (sym (append_assoc (take off b) s (drop (off + length s) b)))
      ∙ ap (λ (t : ℕ). slice ((take off b ++ s) ++ drop (off + length s) b) t n) e
      ∙ slice-append_skip (take off b ++ s) (drop (off + length s) b) d n
      ∙ slice-drop b (off + length s) d n h
      ∙ ap (λ (t : ℕ). slice b t n) (omega arith)

  pub write_at-Written : (c : Bytes) × Written b off s c
  unfolding write_at
  write_at-Written = (
    _,
    record {
      result = ground arith;
      same_length = whole_len;
      here = slice_here;
      below = slice_below;
      above = slice_above;
    },
  )

-- Two writes that do not touch each other.
abbrev pub Apart : ℕ × Bytes → ℕ × Bytes → Type 0
Apart v w = (v.0 + length v.1 ≤ w.0) ⊎ (w.0 + length w.1 ≤ v.0)

abbrev pub IsApart : List (ℕ × Bytes) → Type 0
IsApart [] = Unit
IsApart (w ∷ ws) = All (Apart w) ws × IsApart ws

pub IsApart-append :
    (xs ys : List (ℕ × Bytes))
    → IsApart xs
    → IsApart ys
    → All (λ x. All (Apart x) ys) xs
    → IsApart (xs ++ ys)
IsApart-append [] ys hx hy c = hy
IsApart-append (x ∷ xs) ys (a, hx) hy (cx, c) =
    (All-append (Apart x) xs ys a cx, IsApart-append xs ys hx hy c)

-- The range of `n` bytes at `k` is touched by no write.
abbrev pub Untouched : ℕ → ℕ → ℕ × Bytes → Type 0
Untouched k n w = (k + n ≤ w.0) ⊎ (w.0 + length w.1 ≤ k)

abbrev pub Fits : ℕ → ℕ × Bytes → Type 0
Fits n w = w.0 + length w.1 ≤ n

-- What writes that lie apart from each other, within the buffer, give.
pub record AllWritten (b : Bytes) (ws : List (ℕ × Bytes)) (c : Bytes) : Type 0 where
  pub result : write_each b ws ≡ some c
  pub same_length : length c ≡ length b
  pub here : All (λ w. slice c w.0 (length w.1) ≡ some w.1) ws
  pub outside : (k n : ℕ) → All (Untouched k n) ws → slice c k n ≡ slice b k n

Untouched-slice :
    (b : Bytes) (off : ℕ) (s c : Bytes) (k n : ℕ)
    → Written b off s c
    → Untouched k n (off, s)
    → slice c k n ≡ slice b k n
Untouched-slice b off s c k n w (inl h) = w.below k n h
Untouched-slice b off s c k n w (inr h) = w.above k n h

write_each-step :
    (b : Bytes) (off : ℕ) (s : Bytes) (ws : List (ℕ × Bytes)) (c : Bytes)
    → write_at b off s ≡ some c
    → write_each b ((off, s) ∷ ws) ≡ write_each c ws
unfolding write_each
write_each-step b off s ws c e = rw (e, write_each)

pub write_each-AllWritten :
    (ws : List (ℕ × Bytes)) (b : Bytes)
    → All (Fits (length b)) ws
    → IsApart ws
    → (c : Bytes) × AllWritten b ws c
unfolding write_each
write_each-AllWritten [] b h a =
    (b, record { result = refl; same_length = refl; here = tt; outside = λ k n _. refl })
write_each-AllWritten ((off, s) ∷ ws) b (h, hs) (a, as_) =
    let (c1, w) = write_at-Written b off s h in
    let hs1 = subst (λ (n : ℕ). All (Fits n) ws) (sym w.same_length) hs in
    let (c, r) = write_each-AllWritten ws c1 hs1 as_ in
    (
      c,
      record {
        result = write_each-step b off s ws c1 w.result ∙ r.result;
        same_length = r.same_length ∙ w.same_length;
        here = (r.outside off (length s) a ∙ w.here, r.here);
        outside = λ k n u. r.outside k n u.1 ∙ Untouched-slice b off s c1 k n w u.0;
      },
    )

-- Writes one behind the other, from `lo` on and up to `hi`.
abbrev pub Ascending : ℕ → ℕ → List (ℕ × Bytes) → Type 0
Ascending lo hi [] = lo ≤ hi
Ascending lo hi (w ∷ ws) = (lo ≤ w.0) × Ascending (w.0 + length w.1) hi ws

-- A write within a range.
abbrev pub Within : ℕ → ℕ → ℕ × Bytes → Type 0
Within lo hi w = (lo ≤ w.0) × (w.0 + length w.1 ≤ hi)

Ascending-le : (ws : List (ℕ × Bytes)) (lo hi : ℕ) → Ascending lo hi ws → lo ≤ hi
Ascending-le [] lo hi h = h
Ascending-le (w ∷ ws) lo hi (p, h) = omega (arith, Ascending-le ws (w.0 + length w.1) hi h)

pub Ascending-Within :
    (ws : List (ℕ × Bytes)) (lo hi : ℕ) → Ascending lo hi ws → All (Within lo hi) ws
Ascending-Within [] lo hi h = tt
Ascending-Within (w ∷ ws) lo hi (p, h) = (
  (p, Ascending-le ws (w.0 + length w.1) hi h),
  All-mono (λ (v : ℕ × Bytes) (i : Within (w.0 + length w.1) hi v). (omega (arith, i.0), i.1)) ws
      (Ascending-Within ws (w.0 + length w.1) hi h),
)

pub Ascending-IsApart : (ws : List (ℕ × Bytes)) (lo hi : ℕ) → Ascending lo hi ws → IsApart ws
Ascending-IsApart [] lo hi h = tt
Ascending-IsApart (w ∷ ws) lo hi (p, h) = (
  All-mono (λ (v : ℕ × Bytes) (i : Within (w.0 + length w.1) hi v). inl i.0) ws
      (Ascending-Within ws (w.0 + length w.1) hi h),
  Ascending-IsApart ws (w.0 + length w.1) hi h,
)

-- Writes one behind the other, up to the end of the buffer at most, give a buffer that has them all.
pub Ascending-AllWritten :
    (ws : List (ℕ × Bytes)) (b : Bytes)
    → Ascending 0 (length b) ws
    → (c : Bytes) × AllWritten b ws c
Ascending-AllWritten ws b h =
    write_each-AllWritten ws b
      (All-mono (λ (w : ℕ × Bytes) (i : Within 0 (length b) w). i.1) ws (Ascending-Within ws 0 _ h))
      (Ascending-IsApart ws 0 _ h)

-- Copies of bytes into bytes leave bytes.
pub write_at-IsByte :
    (b : Bytes) (off : ℕ) (s c : Bytes)
    → write_at b off s ≡ some c
    → All IsByte b
    → All IsByte s
    → All IsByte c
unfolding write_at
write_at-IsByte b off s c e hb hs = elim (Bool-cases (leb (off + length s) (length b))) [
  | inl p ↦ subst (All IsByte) (some-injective _ _ (let q = e in rw p at q)) (
      All-append IsByte (take off b) _ (All-take IsByte off b hb)
        (All-append IsByte s _ hs (All-drop IsByte (off + length s) b hb)))
  | inr p ↦ let q = e in absurd (cc (rw p at q))
]

pub write_each-IsByte :
    (ws : List (ℕ × Bytes)) (b c : Bytes)
    → write_each b ws ≡ some c
    → All IsByte b
    → All (λ (w : ℕ × Bytes). All IsByte w.1) ws
    → All IsByte c
unfolding write_each
write_each-IsByte [] b c e hb hs = subst (All IsByte) (some-injective _ _ e) hb
write_each-IsByte ((off, s) ∷ ws) b c e hb (hs, h) = elim (Option-cases (write_at b off s)) [
  | inl p ↦ let q = e in absurd (cc (rw (p, write_each) at q))
  | inr (d, p) ↦
      let q = e in
      write_each-IsByte ws d c (rw (p, write_each) at q) (write_at-IsByte b off s d p hb hs) h
]
