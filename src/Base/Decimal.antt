-- ===== src/Base/Decimal.antt =====
-- `to_string` of an unsigned word: decimal digits, most significant first.
use Prim.Native.Nat.{ℕ, zero, suc, ◌+◌, ◌-◌, ◌*◌, ◌/◌, ◌%◌, ◌^◌, ◌<◌, ◌≤◌, min}
use vgi_reghive.Base.Tests.{◌==◌, if◌then◌else◌, Bool-cases}
use mathlib.Core.Path.{◌≡◌, ap, ◌∙◌}
use mathlib.Core.Logic.{inl, inr}
use mathlib.Core.List.{[], ◌∷◌}
use native.Mathlib.Omega.{arith}
use native.Mathlib.Nat.{pow-suc}
use vgi_reghive.Base.Strings.{Text}
use vgi_reghive.Base.Lists.{All, length}

-- The digits of `n` in front of `acc`; a u64 has 20 digits at most.
unfoldable pub decimal_loop : ℕ → ℕ → Text → Text
decimal_loop zero n acc = acc
decimal_loop (suc fuel) n acc =
    let digit = b'0' + n % 10 in
    let rest = decimal_loop fuel (n / 10) (digit ∷ acc) in if n / 10 == 0 then digit ∷ acc else rest

unfoldable pub decimal : ℕ → Text
unfolding decimal_loop
decimal n = decimal_loop 20 n []

-- The number that digits spell behind `n`.
abbrev pub digits_value : Text → ℕ → ℕ
digits_value [] n = n
digits_value (c ∷ s) n = digits_value s (n * 10 + (c - b'0'))

decimal_loop-value :
    (fuel n : ℕ) (acc : Text)
    → n < 10 ^ fuel
    → digits_value (decimal_loop fuel n acc) 0 ≡ digits_value acc n
unfolding decimal_loop
decimal_loop-value zero n acc h = ap (digits_value acc) (let e : 0 ≡ n = omega arith in e)
decimal_loop-value (suc fuel) n acc h =
    let e = pow-suc 10 fuel in
    let ih = decimal_loop-value fuel (n / 10) ((b'0' + n % 10) ∷ acc) (omega arith) in
    let back : (n / 10) * 10 + (b'0' + n % 10 - b'0') ≡ n = omega arith in
    elim (Bool-cases (n / 10 == 0)) [
      | inl last ↦
          let small : 0 * 10 + (b'0' + n % 10 - b'0') ≡ n = ground arith in
          rw last (ap (digits_value acc) small)
      | inr more ↦ rw more (ih ∙ ap (digits_value acc) back)
    ]

-- Reading the digits back gives the number.
pub digits_value-decimal : (n : ℕ) → n < 10 ^ 20 → digits_value (decimal n) 0 ≡ n
unfolding decimal
digits_value-decimal n h = decimal_loop-value 20 n [] h

abbrev pub IsDigit : ℕ → Type 0
IsDigit c = (b'0' ≤ c) × (c ≤ b'9')

decimal_loop-IsDigit :
    (fuel n : ℕ) (acc : Text)
    → All IsDigit acc
    → All IsDigit (decimal_loop fuel n acc)
      × (min fuel 1 + length acc ≤ length (decimal_loop fuel n acc))
unfolding decimal_loop
decimal_loop-IsDigit zero n acc h = (h, omega arith)
decimal_loop-IsDigit (suc fuel) n acc h =
    let digit : IsDigit (b'0' + n % 10) = omega arith in
    let ih = decimal_loop-IsDigit fuel (n / 10) ((b'0' + n % 10) ∷ acc) (digit, h) in
    elim (Bool-cases (n / 10 == 0)) [
      | inl last ↦ rw last ((digit, h), omega arith)
      | inr more ↦ rw more (ih.0, omega (arith, ih.1))
    ]

-- A number is written in digits, one at least.
pub decimal-IsDigit : (n : ℕ) → All IsDigit (decimal n) × (1 ≤ length (decimal n))
unfolding decimal
decimal-IsDigit n = let (h, l) = decimal_loop-IsDigit 20 n [] tt in (h, omega (arith, l))
