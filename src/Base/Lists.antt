-- ===== src/Base/Lists.antt =====
-- Lists measured and cut by native numbers, under the library's names; `slice` is `b.get(i..i+n)`.
use Prim.Native.Nat.{ℕ, zero, suc, ◌+◌, ◌-◌, ◌≤◌, ◌<◌, min}
use mathlib.Core.Path.{◌≡◌, refl, ap, sym, ◌∙◌}
use mathlib.Core.List.{List, [], ◌∷◌, ◌++◌, map}
use mathlib.Core.Option.{Option, none, some}
use native.Mathlib.Omega.{arith}
use vgi_reghive.Base.Tests.{leb, if◌then◌else◌}

module _ {ℓ} {A : Type ℓ} where
  abbrev pub length : List A → ℕ
  length [] = 0
  length (x ∷ xs) = suc (length xs)

  abbrev pub take : ℕ → List A → List A
  take zero xs = []
  take (suc n) [] = []
  take (suc n) (x ∷ xs) = x ∷ take n xs

  abbrev pub drop : ℕ → List A → List A
  drop zero xs = xs
  drop (suc n) [] = []
  drop (suc n) (x ∷ xs) = drop n xs

  abbrev pub replicate : ℕ → A → List A
  replicate zero a = []
  replicate (suc n) a = a ∷ replicate n a

  pub length-append : (xs ys : List A) → length (xs ++ ys) ≡ length xs + length ys
  length-append [] ys = omega arith
  length-append (x ∷ xs) ys = omega (arith, length-append xs ys)

  pub length-take : (n : ℕ) (xs : List A) → length (take n xs) ≡ min n (length xs)
  length-take zero xs = omega arith
  length-take (suc n) [] = omega arith
  length-take (suc n) (x ∷ xs) = omega (arith, length-take n xs)

  pub length-drop : (n : ℕ) (xs : List A) → length (drop n xs) ≡ length xs - n
  length-drop zero xs = omega arith
  length-drop (suc n) [] = omega arith
  length-drop (suc n) (x ∷ xs) = omega (arith, length-drop n xs)

  pub length-replicate : (n : ℕ) (a : A) → length (replicate n a) ≡ n
  length-replicate zero a = refl
  length-replicate (suc n) a = ap suc (length-replicate n a)

  pub take-append : (xs ys : List A) → take (length xs) (xs ++ ys) ≡ xs
  take-append [] ys = refl
  take-append (x ∷ xs) ys = ap (◌∷◌ x) (take-append xs ys)

  pub drop-append : (xs ys : List A) → drop (length xs) (xs ++ ys) ≡ ys
  drop-append [] ys = refl
  drop-append (x ∷ xs) ys = drop-append xs ys

  pub take-drop : (n : ℕ) (xs : List A) → take n xs ++ drop n xs ≡ xs
  take-drop zero xs = refl
  take-drop (suc n) [] = refl
  take-drop (suc n) (x ∷ xs) = ap (◌∷◌ x) (take-drop n xs)

  -- A piece that ends within the front is read from the front.
  pub take-drop-append :
      (n off : ℕ) (xs ys : List A)
      → off + n ≤ length xs
      → take n (drop off (xs ++ ys)) ≡ take n (drop off xs)
  take-drop-append zero zero xs ys h = refl
  take-drop-append (suc n) zero [] ys h = absurd (omega arith)
  take-drop-append (suc n) zero (x ∷ xs) ys h =
      ap (◌∷◌ x) (take-drop-append n zero xs ys (omega arith))
  take-drop-append zero (suc off) xs ys h = refl
  take-drop-append (suc n) (suc off) [] ys h = absurd (omega arith)
  take-drop-append (suc n) (suc off) (x ∷ xs) ys h =
      take-drop-append (suc n) off xs ys (omega arith)

  pub drop-add : (n k : ℕ) (xs : List A) → drop (n + k) xs ≡ drop k (drop n xs)
  drop-add zero k xs = ap (λ (t : ℕ). drop t xs) (omega arith)
  drop-add (suc n) zero [] =
      ap (λ (t : ℕ). drop t []) (let e : suc n + 0 ≡ suc n = omega arith in e)
  drop-add (suc n) (suc k) [] =
      ap (λ (t : ℕ). drop t []) (let e : suc n + suc k ≡ suc (n + suc k) = omega arith in e)
  drop-add (suc n) k (x ∷ xs) =
      let e : suc n + k ≡ suc (n + k) = omega arith in rw e (drop-add n k xs)

module _ {ℓ κ} {A : Type ℓ} {B : Type κ} (f : A → B) where
  pub length-map : (xs : List A) → length (map f xs) ≡ length xs
  length-map [] = refl
  length-map (x ∷ xs) = ap suc (length-map xs)

module _ {ℓ κ} {A : Type ℓ} (P : A → Type κ) where
  abbrev pub All : List A → Type κ
  All [] = Unit
  All (x ∷ xs) = P x × All xs

  pub All-append : (xs ys : List A) → All xs → All ys → All (xs ++ ys)
  All-append [] ys _ hy = hy
  All-append (x ∷ xs) ys (px, hx) hy = (px, All-append xs ys hx hy)

  pub All-front : (xs ys : List A) → All (xs ++ ys) → All xs
  All-front [] ys h = tt
  All-front (x ∷ xs) ys (p, h) = (p, All-front xs ys h)

  pub All-take : (n : ℕ) (xs : List A) → All xs → All (take n xs)
  All-take zero xs h = tt
  All-take (suc n) [] h = tt
  All-take (suc n) (x ∷ xs) (px, h) = (px, All-take n xs h)

  pub All-drop : (n : ℕ) (xs : List A) → All xs → All (drop n xs)
  All-drop zero xs h = h
  All-drop (suc n) [] h = tt
  All-drop (suc n) (x ∷ xs) (px, h) = All-drop n xs h

module _ {ℓ} {A : Type ℓ} where
  -- `b.get(off..off + n)`: the range has to lie within the slice.
  unfoldable pub slice : List A → ℕ → ℕ → Option (List A)
  slice xs off n = if leb (off + n) (length xs) then some (take n (drop off xs)) else none

  pub slice_within :
      (xs : List A) (off n : ℕ) → off + n ≤ length xs → slice xs off n ≡ some (take n (drop off xs))
  unfolding slice
  slice_within xs off n h = ground arith

  pub slice_beyond : (xs : List A) (off n : ℕ) → length xs < off + n → slice xs off n ≡ none
  unfolding slice
  slice_beyond xs off n h = ground arith

  -- Reading behind a prefix is reading the rest.
  pub slice-append_skip :
      (xs ys : List A) (off n : ℕ) → slice (xs ++ ys) (length xs + off) n ≡ slice ys off n
  unfolding slice
  slice-append_skip xs ys off n =
      rw (drop-add (length xs) off (xs ++ ys), drop-append xs ys)
        (ground (arith, length-append xs ys))

  -- The piece that stands behind a prefix is what is read there.
  pub slice-append_at :
      (xs ys zs : List A) → slice (xs ++ (ys ++ zs)) (length xs) (length ys) ≡ some ys
  slice-append_at xs ys zs =
      rw
        (slice_within (xs ++ (ys ++ zs)) (length xs) (length ys)
          (omega (arith, length-append xs (ys ++ zs), length-append ys zs)))
        (rw (drop-append xs (ys ++ zs), take-append ys zs))

  -- A piece that ends within the front is read from the front.
  pub slice-append :
      (xs ys : List A) (off n : ℕ) → off + n ≤ length xs → slice (xs ++ ys) off n ≡ slice xs off n
  slice-append xs ys off n h =
      slice_within (xs ++ ys) off n (omega (arith, length-append xs ys))
      ∙ ap some (take-drop-append n off xs ys h)
      ∙ sym (slice_within xs off n h)

  pub take-append_within : (n : ℕ) (xs ys : List A) → n ≤ length xs → take n (xs ++ ys) ≡ take n xs
  take-append_within n xs ys h = take-drop-append n 0 xs ys (omega arith)

module _ {ℓ κ μ} {A : Type ℓ} {P : A → Type κ} {Q : A → Type μ} (f : (x : A) → P x → Q x) where
  pub All-mono : (xs : List A) → All P xs → All Q xs
  All-mono [] h = tt
  All-mono (x ∷ xs) (px, h) = (f x px, All-mono xs h)
