-- ===== src/Base/Xor.antt =====
-- Laws of the native `bit_xor` at variables, from its definition on binary digits.
use Prim.Native.Nat.{ℕ, zero, suc, ◌+◌, ◌*◌, ◌/◌, ◌%◌, ◌^◌, ◌≤◌, ◌<◌, bit_xor, bit_xor-bitwise}
use Prim.Native.Nat.{digits, differ}
use mathlib.Core.Path.{◌≡◌, refl, ap, sym, ◌∙◌}
use native.Mathlib.Omega.{arith}
use native.Mathlib.Nat.{pow-suc}

-- The recursion on digits, with its count of rounds in view.
abbrev xor_rounds : ℕ → ℕ → ℕ → ℕ
xor_rounds n a b = digits (λ b. b) differ n a b

-- More rounds than the first number needs change nothing.
xor_rounds_enough : (n m a b : ℕ) → a ≤ n → a ≤ m → xor_rounds n a b ≡ xor_rounds m a b
xor_rounds_enough zero zero a b p q = refl
xor_rounds_enough zero (suc m) zero b p q = refl
xor_rounds_enough zero (suc m) (suc a) b p q = absurd (omega arith)
xor_rounds_enough (suc n) zero zero b p q = refl
xor_rounds_enough (suc n) zero (suc a) b p q = absurd (omega arith)
xor_rounds_enough (suc n) (suc m) zero b p q = refl
xor_rounds_enough (suc n) (suc m) (suc a) b p q =
    ap (λ (t : ℕ). t * 2 + differ (suc a % 2) (b % 2))
      (xor_rounds_enough n m (suc a / 2) (b / 2) (omega arith) (omega arith))

pub zero-bit_xor : (b : ℕ) → bit_xor 0 b ≡ b
zero-bit_xor b = bit_xor-bitwise 0 b

differ_zero : (y : ℕ) → differ 0 y ≡ y
differ_zero y = refl

-- The lowest digit, and the digits above it.
pub bit_xor_step : (a b : ℕ) → bit_xor a b ≡ bit_xor (a / 2) (b / 2) * 2 + differ (a % 2) (b % 2)
bit_xor_step zero b = omega (arith, zero-bit_xor b, zero-bit_xor (b / 2))
bit_xor_step (suc a) b = omega (
  arith,
  bit_xor-bitwise (suc a) b,
  bit_xor-bitwise (suc a / 2) (b / 2),
  xor_rounds_enough a (suc a / 2) (suc a / 2) (b / 2) (omega arith) (omega arith),
)

differ_digits : (x y : ℕ) → x < 2 → y < 2 → differ x y ≡ (x + y) % 2
differ_digits zero zero p q = refl
differ_digits zero (suc zero) p q = refl
differ_digits zero (suc (suc y)) p q = absurd (omega arith)
differ_digits (suc zero) zero p q = refl
differ_digits (suc zero) (suc zero) p q = refl
differ_digits (suc zero) (suc (suc y)) p q = absurd (omega arith)
differ_digits (suc (suc x)) y p q = absurd (omega arith)

pub bit_xor_mod : (a b : ℕ) → bit_xor a b % 2 ≡ (a + b) % 2
bit_xor_mod a b =
    omega (arith, bit_xor_step a b, differ_digits (a % 2) (b % 2) (omega arith) (omega arith))

pub bit_xor_div : (a b : ℕ) → bit_xor a b / 2 ≡ bit_xor (a / 2) (b / 2)
bit_xor_div a b =
    omega (arith, bit_xor_step a b, differ_digits (a % 2) (b % 2) (omega arith) (omega arith))

-- Words of `k` bits stay words of `k` bits.
pub bit_xor-lt : (k a b : ℕ) → a < 2 ^ k → b < 2 ^ k → bit_xor a b < 2 ^ k
bit_xor-lt zero a b p q =
    let ea : a ≡ 0 = omega arith in
    let eb : b ≡ 0 = omega arith in rw (ea, eb) (omega (arith, zero-bit_xor 0))
bit_xor-lt (suc k) a b p q = omega (
  arith,
  pow-suc 2 k,
  bit_xor_mod a b,
  bit_xor_div a b,
  bit_xor-lt k (a / 2) (b / 2) (let e = pow-suc 2 k in omega arith)
      (let e = pow-suc 2 k in omega arith),
)

-- Equal lowest digits and equal digits above make equal numbers.
halves_eq : (x y : ℕ) → x % 2 ≡ y % 2 → x / 2 ≡ y / 2 → x ≡ y
halves_eq x y p q = omega arith

-- The laws below go from the halves to the numbers, `n` bounding the rounds.
xor_comm_rounds : (n a b : ℕ) → a ≤ n → b ≤ n → bit_xor a b ≡ bit_xor b a
xor_comm_rounds zero a b p q =
    let ea : a ≡ 0 = omega arith in let eb : b ≡ 0 = omega arith in rw (ea, eb)
xor_comm_rounds (suc n) a b p q = omega (
  arith,
  bit_xor_mod a b,
  bit_xor_div a b,
  bit_xor_mod b a,
  bit_xor_div b a,
  xor_comm_rounds n (a / 2) (b / 2) (omega arith) (omega arith),
)

pub bit_xor_comm : (a b : ℕ) → bit_xor a b ≡ bit_xor b a
bit_xor_comm a b = xor_comm_rounds (a + b) a b (omega arith) (omega arith)

xor_assoc_rounds :
    (n a b c : ℕ) → a ≤ n → b ≤ n → c ≤ n → bit_xor (bit_xor a b) c ≡ bit_xor a (bit_xor b c)
xor_assoc_rounds zero a b c p q r =
    let ea : a ≡ 0 = omega arith in
    let eb : b ≡ 0 = omega arith in
    let ec : c ≡ 0 = omega arith in
    rw (ea, eb, ec)
      (ap (λ (t : ℕ). bit_xor t 0) (zero-bit_xor 0) ∙ sym (ap (bit_xor 0) (zero-bit_xor 0)))
xor_assoc_rounds (suc n) a b c p q r =
    halves_eq _ _
      (omega (
        arith,
        bit_xor_mod (bit_xor a b) c,
        bit_xor_mod a (bit_xor b c),
        bit_xor_mod a b,
        bit_xor_mod b c,
      ))
      (bit_xor_div (bit_xor a b) c
        ∙ ap (λ (t : ℕ). bit_xor t (c / 2)) (bit_xor_div a b)
        ∙ xor_assoc_rounds n (a / 2) (b / 2) (c / 2) (omega arith) (omega arith) (omega arith)
        ∙ sym (ap (bit_xor (a / 2)) (bit_xor_div b c))
        ∙ sym (bit_xor_div a (bit_xor b c)))

pub bit_xor_assoc : (a b c : ℕ) → bit_xor (bit_xor a b) c ≡ bit_xor a (bit_xor b c)
bit_xor_assoc a b c = xor_assoc_rounds (a + b + c) a b c (omega arith) (omega arith) (omega arith)

xor_self_rounds : (n a : ℕ) → a ≤ n → bit_xor a a ≡ 0
xor_self_rounds zero a p = let ea : a ≡ 0 = omega arith in rw ea (zero-bit_xor 0)
xor_self_rounds (suc n) a p =
    omega (arith, bit_xor_mod a a, bit_xor_div a a, xor_self_rounds n (a / 2) (omega arith))

pub bit_xor_self : (a : ℕ) → bit_xor a a ≡ 0
bit_xor_self a = xor_self_rounds a a (omega arith)

-- A second `^ b` takes the first one back.
pub bit_xor_cancel : (a b c : ℕ) → bit_xor a b ≡ bit_xor a c → b ≡ c
bit_xor_cancel a b c e = sym (undo b) ∙ ap (bit_xor a) e ∙ undo c
  where
    undo : (x : ℕ) → bit_xor a (bit_xor a x) ≡ x
    undo x =
        sym (bit_xor_assoc a a x) ∙ ap (λ (t : ℕ). bit_xor t x) (bit_xor_self a) ∙ zero-bit_xor x
