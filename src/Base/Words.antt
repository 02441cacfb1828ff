-- ===== src/Base/Words.antt =====
-- Bytes and little-endian words (`from_le_bytes`, `to_le_bytes`), the `as` casts to signed words, and
-- the saturating and checked additions of the program.
use Prim.Native.Nat.{ℕ, zero, suc, ◌+◌, ◌-◌, ◌*◌, ◌/◌, ◌%◌, ◌^◌, ◌<◌, min}
use vgi_reghive.Base.Lists.{take, take-append, length, All}
use mathlib.Core.List.{◌++◌, List, [], ◌∷◌}
use mathlib.Core.Path.{sym, ◌≡◌, refl, ap, ◌∙◌}
use mathlib.Core.Option.{Option, none, some}
use native.Mathlib.Omega.{arith}
use native.Mathlib.Nat.{pow-suc}
use vgi_reghive.Base.Tests.{ltb, leb, if◌then◌else◌}

abbrev pub Bytes : Type 0
Bytes = List ℕ

abbrev pub IsByte : ℕ → Type 0
IsByte b = b < 256

abbrev pub u32_max : ℕ
u32_max = 2 ^ 32 - 1

-- `u32::from_le_bytes` and its like, on as many bytes as there are.
unfoldable pub from_le : Bytes → ℕ
from_le [] = 0
from_le (b ∷ bs) = b + 256 * from_le bs

-- `to_le_bytes` of an unsigned word of `n` bytes.
unfoldable pub to_le : ℕ → ℕ → Bytes
to_le zero v = []
to_le (suc n) v = (v % 256) ∷ to_le n (v / 256)

pub length-to_le : (n v : ℕ) → length (to_le n v) ≡ n
unfolding to_le
length-to_le zero v = refl
length-to_le (suc n) v = ap suc (length-to_le n (v / 256))

pub take-to_le : (n v : ℕ) (rest : Bytes) → take n (to_le n v ++ rest) ≡ to_le n v
take-to_le n v rest =
    ap (λ (k : ℕ). take k (to_le n v ++ rest)) (sym (length-to_le n v))
    ∙ take-append (to_le n v) rest

pub to_le-IsByte : (n v : ℕ) → All IsByte (to_le n v)
unfolding to_le
to_le-IsByte zero v = tt
to_le-IsByte (suc n) v = (omega arith, to_le-IsByte n (v / 256))

-- Writing a word and reading it back.
pub from_le-to_le : (n v : ℕ) → v < 256 ^ n → from_le (to_le n v) ≡ v
unfolding from_le to_le
from_le-to_le zero v h = omega arith
from_le-to_le (suc n) v h =
    omega (arith, pow-suc 256 n, from_le-to_le n (v / 256) (let e = pow-suc 256 n in omega arith))

-- Reading bytes and writing them back.
pub to_le-from_le : (bs : Bytes) → All IsByte bs → to_le (length bs) (from_le bs) ≡ bs
unfolding from_le to_le
to_le-from_le [] h = refl
to_le-from_le (b ∷ bs) (hb, h) =
    let low : (b + 256 * from_le bs) % 256 ≡ b = omega arith in
    let high : (b + 256 * from_le bs) / 256 ≡ from_le bs = omega arith in
    λ i. low i ∷ (ap (to_le (length bs)) high ∙ to_le-from_le bs h) i

pub from_le-lt : (bs : Bytes) → All IsByte bs → from_le bs < 256 ^ length bs
unfolding from_le
from_le-lt [] h = omega arith
from_le-lt (b ∷ bs) (hb, h) = omega (arith, pow-suc 256 (length bs), from_le-lt bs h)

-- `saturating_add` on u32.
unfoldable pub sat_add32 : ℕ → ℕ → ℕ
sat_add32 a b = if leb (a + b) u32_max then a + b else u32_max

pub sat_add32_lem : (a b : ℕ) → sat_add32 a b ≡ min (a + b) u32_max
unfolding sat_add32
sat_add32_lem a b = ground arith

-- `checked_add` on usize, which has 64 bits.
unfoldable pub checked_add64 : ℕ → ℕ → Option ℕ
checked_add64 a b = if ltb (a + b) (2 ^ 64) then some (a + b) else none
