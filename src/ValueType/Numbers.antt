-- ===== src/ValueType/Numbers.antt =====
-- Number values: which types give a number, and which number.
use vgi_reghive.Base.{ℕ, ◌^◌, ◌≤◌, ◌<◌, ◌≡◌, refl, ap, ◌∙◌, ◌≢◌, ◌↔◌, ◌⊎◌, inl, inr, none, some}
use vgi_reghive.Base.{◌++◌, arith, le→leb, length, take, length-append, Bytes}
use vgi_reghive.ValueType.{masked, coerce, truncated, reverse, decimal, pos, as_i64, from_be}
use vgi_reghive.ValueType.{as_number}
use vgi_reghive.Base.Words.{to_le, length-to_le, from_le, take-to_le, from_le-to_le}

abbrev pub IsDwordType : ℕ → Type 0
IsDwordType t = (masked t ≡ 4) ⊎ (masked t ≡ 5)

abbrev pub IsQwordType : ℕ → Type 0
IsQwordType t = (masked t ≡ 11) ⊎ (masked t ≡ 16)

-- A value that is long enough for the number of its type.
abbrev pub HasNumber : ℕ → Bytes → Type 0
HasNumber t raw = (IsDwordType t × (4 ≤ length raw)) ⊎ (IsQwordType t × (8 ≤ length raw))

-- A value that is too short for the number of its type.
abbrev pub IsCut : ℕ → Bytes → Type 0
IsCut t raw = (IsDwordType t × (length raw < 4)) ⊎ (IsQwordType t × (length raw < 8))

-- There is a `value_dword` exactly where a value of one of the number types has bytes enough for
-- its number.
pub coerce-dword_iff : (t : ℕ) (raw : Bytes) → ((coerce t raw).value_dword ≢ none) ↔ HasNumber t raw
unfolding coerce
coerce-dword_iff t raw = ground arith

-- The diagnostic is `truncated` exactly where a value of a number type has too few bytes for its
-- number.
pub coerce-truncated_iff :
    (t : ℕ) (raw : Bytes) → ((coerce t raw).diagnostics ≡ truncated) ↔ IsCut t raw
unfolding coerce
coerce-truncated_iff t raw = ground arith

coerce_as_dword :
    (t : ℕ) (raw : Bytes)
    → masked t ≡ 4
    → 4 ≤ length raw
    → coerce t raw ≡ as_number (from_le (take 4 raw)) (pos (from_le (take 4 raw)))
unfolding coerce
coerce_as_dword t raw e h = rw (e, le→leb 4 (length raw) h)

coerce_as_dword_be :
    (t : ℕ) (raw : Bytes)
    → masked t ≡ 5
    → 4 ≤ length raw
    → coerce t raw ≡ as_number (from_be (take 4 raw)) (pos (from_be (take 4 raw)))
unfolding coerce
coerce_as_dword_be t raw e h = rw (e, le→leb 4 (length raw) h)

coerce_as_qword :
    (t : ℕ) (raw : Bytes)
    → IsQwordType t
    → 8 ≤ length raw
    → coerce t raw ≡ as_number (from_le (take 8 raw)) (as_i64 (from_le (take 8 raw)))
unfolding coerce
coerce_as_qword t raw (inl e) h = rw (e, le→leb 8 (length raw) h)
coerce_as_qword t raw (inr e) h = rw (e, le→leb 8 (length raw) h)

enough : (n v : ℕ) (rest : Bytes) → n ≤ length (to_le n v ++ rest)
enough n v rest = omega (arith, length-append (to_le n v) rest, length-to_le n v)

word_back : (n v : ℕ) (rest : Bytes) → v < 256 ^ n → from_le (take n (to_le n v ++ rest)) ≡ v
word_back n v rest h = ap from_le (take-to_le n v rest) ∙ from_le-to_le n v h

-- A REG_DWORD whose first four bytes are a word in little-endian order, whatever follows them, has
-- its decimal as text and the word as `value_dword`, with no diagnostic.
pub coerce_dword :
    (t v : ℕ) (rest : Bytes)
    → masked t ≡ 4
    → v < 2 ^ 32
    → coerce t (to_le 4 v ++ rest)
      ≡ record { value_data = decimal v; value_dword = some (pos v); diagnostics = none }
coerce_dword t v rest e h =
    coerce_as_dword t (to_le 4 v ++ rest) e (enough 4 v rest)
    ∙ ap (λ (n : ℕ). as_number n (pos n)) (word_back 4 v rest h)

-- A REG_DWORD_BIG_ENDIAN whose first four bytes are a word in big-endian order, whatever follows
-- them, has its decimal as text and the word as `value_dword`, with no diagnostic.
pub coerce_dword_be :
    (t v : ℕ) (rest : Bytes)
    → masked t ≡ 5
    → v < 2 ^ 32
    → coerce t (reverse (to_le 4 v) ++ rest)
      ≡ record { value_data = decimal v; value_dword = some (pos v); diagnostics = none }
coerce_dword_be t v rest e h =
    coerce_as_dword_be t (reverse (to_le 4 v) ++ rest) e (unfold to_le in omega arith)
    ∙ ap (λ (n : ℕ). as_number n (pos n)) (back ∙ from_le-to_le 4 v h)
  where
    back : from_be (take 4 (reverse (to_le 4 v) ++ rest)) ≡ from_le (to_le 4 v)
    back = unfold to_le in refl

-- A value of type 11 or 16 whose first eight bytes are a word in little-endian order, whatever
-- follows them, has its unsigned decimal as text and the same bits as a signed word as
-- `value_dword`, with no diagnostic.
pub coerce_qword :
    (t v : ℕ) (rest : Bytes)
    → IsQwordType t
    → v < 2 ^ 64
    → coerce t (to_le 8 v ++ rest)
      ≡ record { value_data = decimal v; value_dword = some (as_i64 v); diagnostics = none }
coerce_qword t v rest e h =
    coerce_as_qword t (to_le 8 v ++ rest) e (enough 8 v rest)
    ∙ ap (λ (n : ℕ). as_number n (as_i64 n)) (word_back 8 v rest h)
