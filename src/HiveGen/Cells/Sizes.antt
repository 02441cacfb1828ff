-- ===== src/HiveGen/Cells/Sizes.antt =====
-- The sizes of payloads and cells.
use vgi_reghive.Base.{ℕ, ◌+◌, ◌-◌, ◌*◌, ◌/◌, ◌^◌, ◌<◌, ◌≡◌, ap, ◌∙◌, Bool, true, false, zero, suc}
use vgi_reghive.Base.{[], ◌∷◌, ◌++◌, refl, sym, ◌≤◌, if◌then◌else◌, take-append}
use vgi_reghive.Base.{take-append_within, arith, length, take, replicate, length-append}
use vgi_reghive.Base.{length-take, length-replicate, Bytes}
use vgi_reghive.Base.Words.{to_le, from_le, from_le-to_le, length-to_le}
use vgi_reghive.Base.Utf8.{as_bytes}
use vgi_reghive.HiveGen.Spec.{ValueSpec, KeySpec, key_name}
use vgi_reghive.HiveGen.Cells.{cell_size, cell_with_sign, nk_payload, vk_payload, resize, as_u32}
use vgi_reghive.HiveGen.Cells.{negated}

-- The size of a cell for a payload of `n` bytes: with the four bytes of its size, in units of eight.
abbrev pub padded : ℕ → ℕ
padded n = (4 + n + 7) / 8 * 8

pub cell_size-padded : (n : ℕ) → n + 11 < 2 ^ 32 → cell_size n ≡ padded n
unfolding cell_size
cell_size-padded n h = omega arith

length-resize : (n : ℕ) (b : Bytes) → length (resize n b) ≡ n
length-resize n b = omega (
  arith,
  length-append (take n b) (replicate (n - length b) 0),
  length-take n b,
  length-replicate {A = ℕ} (n - length b) 0,
)

pub length-cell_with_sign :
    (payload : Bytes) (allocated : Bool)
    → length payload + 11 < 2 ^ 32
    → length (cell_with_sign payload allocated) ≡ padded (length payload)
unfolding cell_with_sign
length-cell_with_sign payload allocated h =
    length-resize (cell_size (as_u32 (length payload))) _
    ∙ ap cell_size (omega arith)
    ∙ cell_size-padded (length payload) h

pub length-vk_payload :
    (v : ValueSpec) (size off : ℕ) → length (vk_payload v size off) ≡ 20 + length (as_bytes v.name)
unfolding vk_payload to_le
length-vk_payload v size off = omega arith

pub length-nk_payload :
    (k : KeySpec) (flags parent n_sub subs n_values values : ℕ)
    → length (nk_payload k flags parent n_sub subs n_values values)
      ≡ 76 + length (as_bytes (key_name k))
unfolding nk_payload to_le
length-nk_payload k flags parent n_sub subs n_values values = omega arith

pub take-take : (k n : ℕ) (xs : Bytes) → k ≤ n → take k (take n xs) ≡ take k xs
take-take zero n xs h = refl
take-take (suc k) zero xs h = absurd (omega arith)
take-take (suc k) (suc n) [] h = refl
take-take (suc k) (suc n) (x ∷ xs) h = ap (◌∷◌ x) (take-take k n xs (omega arith))

pub take-all : (n : ℕ) (xs : Bytes) → length xs ≤ n → take n xs ≡ xs
take-all zero [] h = refl
take-all zero (x ∷ xs) h = absurd (omega arith)
take-all (suc n) [] h = refl
take-all (suc n) (x ∷ xs) h = ap (◌∷◌ x) (take-all n xs (omega arith))

take-resize : (n : ℕ) (w rest : Bytes) → length w ≤ n → take (length w) (resize n (w ++ rest)) ≡ w
take-resize n w rest h =
    take-append_within (length w) (take n (w ++ rest)) _
      (omega (arith, length-take n (w ++ rest), length-append w rest))
    ∙ take-take (length w) n (w ++ rest) h
    ∙ take-append w rest

-- The word that a cell begins with.
pub size_word :
    (payload : Bytes) (allocated : Bool)
    → length payload + 11 < 2 ^ 32
    → from_le (take 4 (cell_with_sign payload allocated))
      ≡ (if allocated then negated (padded (length payload)) else padded (length payload))
unfolding cell_with_sign
size_word payload allocated h =
    let total = cell_size (as_u32 (length payload)) in
    let e : total ≡ padded (length payload) =
      ap cell_size (omega arith) ∙ cell_size-padded (length payload) h in
    let signed = if allocated then negated total else total in
    ap from_le (
      ap (λ (t : ℕ). take t (resize total (to_le 4 signed ++ payload)))
        (sym (length-to_le 4 signed))
      ∙ take-resize total (to_le 4 signed) payload (omega (arith, e, length-to_le 4 signed)))
    ∙ from_le-to_le 4 signed (signed_lt total allocated e)
    ∙ ap (λ (t : ℕ). if allocated then negated t else t) e
  where
    signed_lt :
        (t : ℕ) (a : Bool) → t ≡ padded (length payload) → (if a then negated t else t) < 256 ^ 4
    signed_lt t true e = omega arith
    signed_lt t false e = omega (arith, e, h)
