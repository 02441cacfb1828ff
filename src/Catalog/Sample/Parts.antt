-- ===== src/Catalog/Sample/Parts.antt =====
-- The bytes that a SQL expression of the demo's form stands for, and its parts.
use vgi_reghive.Base.{ℕ, ◌/◌, ◌%◌, ◌^◌, ◌≤◌, ◌<◌, ◌≡◌, refl, sym, ap, ◌∙◌, ◌⊎◌, inl, inr, List}
use vgi_reghive.Base.{[], ◌∷◌, ◌++◌, append_assoc, arith, ltb, ltb→lt, Bool-cases, length}
use vgi_reghive.Base.{replicate, All, Bytes, IsByte, Text, codes}
use vgi_reghive.Base.Decimal.{IsDigit, decimal-IsDigit, decimal, digits_value}
use vgi_reghive.Base.Decimal.{digits_value-decimal}
use vgi_reghive.ValueType.{hex_digit, to_hex_lower}
use vgi_reghive.ValueType.Hex.{from_hex, from_hex-to_hex_lower, length-to_hex_lower}
use vgi_reghive.Catalog.Sample.{quoted, repeated, join}
use mathlib.Core.Path.{subst}

abbrev pub IsHexDigit : ℕ → Type 0
IsHexDigit c = IsDigit c ⊎ ((b'a' ≤ c) × (c ≤ b'f'))

-- A string of hex digits, and `repeat` of two zero digits.
pub data PartDenotes : Text → Bytes → Type 0 where
  literal : (s : Text) → All IsHexDigit s → length s % 2 ≡ 0 → PartDenotes (quoted s) (from_hex s)
  repeat :
      (s : Text)
      → All IsDigit s
      → 1 ≤ length s
      → PartDenotes (codes "repeat('00', " ++ (s ++ codes ")")) (replicate (digits_value s 0) 0)

-- `a || b || …`
pub data ConcatDenotes : Text → Bytes → Type 0 where
  one : (s : Text) (b : Bytes) → PartDenotes s b → ConcatDenotes s b
  append :
      (s t : Text) (b c : Bytes)
      → ConcatDenotes s b
      → PartDenotes t c
      → ConcatDenotes (s ++ (codes " || " ++ t)) (b ++ c)

-- `unhex(…)::BLOB`
pub data BlobDenotes : Text → Bytes → Type 0 where
  unhex :
      (s : Text) (b : Bytes)
      → ConcatDenotes s b
      → BlobDenotes (codes "unhex(" ++ (s ++ codes ")::BLOB")) b

-- The parts, joined, stand for the bytes.
abbrev pub PartsDenote : List Text → Bytes → Type 0
PartsDenote [] b = b ≡ []
PartsDenote (p ∷ parts) b = ConcatDenotes (join (codes " || ") (p ∷ parts)) b

pub hex_digit-IsHexDigit : (d : ℕ) → d < 16 → IsHexDigit (hex_digit d)
unfolding hex_digit
hex_digit-IsHexDigit d h = elim (Bool-cases (ltb d 10)) [
  | inl e ↦ rw e (inl (let l = ltb→lt d 10 e in (omega arith, omega arith)))
  | inr e ↦ rw e (let l : 10 ≤ d = ground arith in inr (omega arith, omega arith))
]

pub hex_digits : (b : Bytes) → All IsByte b → All IsHexDigit (to_hex_lower b)
unfolding to_hex_lower
hex_digits [] h = tt
hex_digits (b ∷ bs) (hb, h) = (
  hex_digit-IsHexDigit (b / 16) (omega arith),
  (hex_digit-IsHexDigit (b % 16) (omega arith), hex_digits bs h),
)

pub literal_part : (b : Bytes) → All IsByte b → PartDenotes (quoted (to_hex_lower b)) b
literal_part b h =
    subst (PartDenotes (quoted (to_hex_lower b))) (from_hex-to_hex_lower b h)
      (literal (to_hex_lower b) (hex_digits b h) (omega (arith, length-to_hex_lower b)))

pub repeat_part : (n : ℕ) → n < 10 ^ 20 → PartDenotes (repeated n) (replicate n 0)
repeat_part n h =
    subst (λ (k : ℕ). PartDenotes (repeated n) (replicate k 0)) (digits_value-decimal n h)
      (repeat (decimal n) (decimal-IsDigit n).0 (decimal-IsDigit n).1)

pub join_snoc :
    (sep : Text) (p : Text) (parts : List Text) (t : Text)
    → join sep ((p ∷ parts) ++ t ∷ []) ≡ join sep (p ∷ parts) ++ (sep ++ t)
unfolding join
join_snoc sep p [] t = refl
join_snoc sep p (q ∷ parts) t =
    ap (λ (u : Text). p ++ (sep ++ u)) (join_snoc sep q parts t)
    ∙ ap (λ (u : Text). p ++ u) (sym (append_assoc sep (join sep (q ∷ parts)) (sep ++ t)))
    ∙ sym (append_assoc p (sep ++ join sep (q ∷ parts)) (sep ++ t))

pub and_part :
    (parts : List Text) (b : Bytes) (t : Text) (c : Bytes)
    → PartsDenote parts b
    → PartDenotes t c
    → PartsDenote (parts ++ t ∷ []) (b ++ c)
and_part [] b t c e p =
    unfold join in subst (ConcatDenotes t) (sym (ap (λ (x : Bytes). x ++ c) e)) (one t c p)
and_part (q ∷ parts) b t c d p =
    subst (λ (s : Text). ConcatDenotes s (b ++ c)) (sym (join_snoc (codes " || ") q parts t))
      (append _ t b c d p)

pub to_hex_lower-append : (a b : Bytes) → to_hex_lower (a ++ b) ≡ to_hex_lower a ++ to_hex_lower b
unfolding to_hex_lower
to_hex_lower-append [] b = refl
to_hex_lower-append (x ∷ a) b =
    ap (λ (t : Text). hex_digit (x / 16) ∷ hex_digit (x % 16) ∷ t) (to_hex_lower-append a b)
