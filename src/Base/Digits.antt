-- ===== src/Base/Digits.antt =====
-- Operations on the binary digits of two native numbers, with all digits of the second.
use Prim.Native.Nat.{
  ℕ, zero, suc, ◌+◌, ◌-◌, ◌*◌, ◌/◌, ◌%◌, ◌^◌, ◌≤◌, ◌<◌, max, digits, bit_or, bit_or-bitwise,
}
use mathlib.Core.Path.{◌≡◌, refl, sym, ap, ◌∙◌}
use native.Mathlib.Nat.{pow-suc, mul_assoc}
use native.Mathlib.Omega.{arith}

module _ (op : ℕ → ℕ → ℕ) where
  abbrev pub op_digits : ℕ → ℕ → ℕ → ℕ
  op_digits n a b = digits (λ b. b) op n a b

  -- One more step than the number needs changes nothing.
  op_digits_spare : (a b n : ℕ) → a ≤ n → op_digits (suc n) a b ≡ op_digits n a b
  op_digits_spare zero b zero h = refl
  op_digits_spare zero b (suc n) h = refl
  op_digits_spare (suc a) b zero h = absurd (omega arith)
  op_digits_spare (suc a) b (suc n) h =
      ap (λ t. t * 2 + op (suc a % 2) (b % 2)) (op_digits_spare (suc a / 2) (b / 2) n (omega arith))

  pub op_digits_drop : (k a b n : ℕ) → n ≡ k + a → op_digits n a b ≡ op_digits a a b
  op_digits_drop zero a b n e = ap (λ t. op_digits t a b) (omega arith)
  op_digits_drop (suc k) a b zero e = absurd (omega arith)
  op_digits_drop (suc k) a b (suc n) e =
      op_digits_spare a b n (omega arith) ∙ op_digits_drop k a b n (omega arith)

zero-bit_or : (b : ℕ) → bit_or 0 b ≡ b
zero-bit_or b = bit_or-bitwise 0 b

-- The lowest digit of `|`, and the rest.
bit_or_step : (a b : ℕ) → bit_or a b ≡ bit_or (a / 2) (b / 2) * 2 + max (a % 2) (b % 2)
bit_or_step zero b = omega (arith, zero-bit_or b, zero-bit_or (b / 2))
bit_or_step (suc a) b = omega (
  arith,
  bit_or-bitwise (suc a) b,
  bit_or-bitwise (suc a / 2) (b / 2),
  op_digits_drop max (a - suc a / 2) (suc a / 2) (b / 2) a (omega arith),
)

or_zero_fuel : (n a : ℕ) → a ≤ n → bit_or a 0 ≡ a
or_zero_fuel zero zero h = zero-bit_or 0
or_zero_fuel zero (suc a) h = absurd (omega arith)
or_zero_fuel (suc n) a h = omega (arith, bit_or_step a 0, or_zero_fuel n (a / 2) (omega arith))

or_double : (p b : ℕ) → bit_or p (b / 2) ≡ p + b / 2 → bit_or (p * 2) b ≡ p * 2 + b
or_double p b h =
    let half : p * 2 / 2 ≡ p = omega arith in
    omega (arith, bit_or_step (p * 2) b, ap (λ t. bit_or t (b / 2)) half, h)

-- Digits that stand behind those of a multiple of a power of two are added to it.
pub bit_or-add : (k a b : ℕ) → b < 2 ^ k → bit_or (a * 2 ^ k) b ≡ a * 2 ^ k + b
bit_or-add zero a b h =
    let none : b ≡ 0 = omega arith in
    ap (bit_or (a * 1)) none ∙ or_zero_fuel (a * 1) (a * 1) (omega arith) ∙ omega arith
bit_or-add (suc k) a b h =
    let e : a * 2 ^ suc k ≡ a * 2 ^ k * 2 =
      ap (λ t. a * t) (pow-suc 2 k) ∙ sym (mul_assoc a (2 ^ k) 2) in
    ap (λ t. bit_or t b) e
    ∙ or_double (a * 2 ^ k) b (bit_or-add k a (b / 2) (omega (arith, pow-suc 2 k)))
    ∙ ap (λ t. t + b) (sym e)
