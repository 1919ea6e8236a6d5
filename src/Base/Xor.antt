-- ===== src/Base/Xor.antt =====
-- The laws of `^` on native numbers: a commutative group in which every element is its own
-- inverse; and the binary digits of a number.
use Prim.Native.Nat.{
  ℕ, zero, suc, ◌+◌, ◌-◌, ◌*◌, ◌/◌, ◌%◌, ◌^◌, ◌≤◌, ◌<◌, bit_xor, differ, bit_xor-bitwise,
}
use mathlib.Core.Path.{◌≡◌, refl, sym, ap, ◌∙◌}
use native.Mathlib.Nat.{pow-suc}
use native.Mathlib.Omega.{arith}
use cip_pir.Base.Digits.{op_digits_drop}

differ_lem : (x y : ℕ) → x < 2 → y < 2 → differ x y ≡ (x + y) % 2
differ_lem zero y p q = omega arith
differ_lem (suc zero) zero p q = refl
differ_lem (suc zero) (suc zero) p q = refl
differ_lem (suc zero) (suc (suc y)) p q = absurd (omega arith)
differ_lem (suc (suc x)) y p q = absurd (omega arith)

pub zero-bit_xor : (b : ℕ) → bit_xor 0 b ≡ b
zero-bit_xor b = bit_xor-bitwise 0 b

-- The lowest digit, and the rest.
pub bit_xor_step : (a b : ℕ) → bit_xor a b ≡ bit_xor (a / 2) (b / 2) * 2 + (a % 2 + b % 2) % 2
bit_xor_step zero b = omega (arith, zero-bit_xor b, zero-bit_xor (b / 2))
bit_xor_step (suc a) b = omega (
  arith,
  bit_xor-bitwise (suc a) b,
  bit_xor-bitwise (suc a / 2) (b / 2),
  op_digits_drop differ (a - suc a / 2) (suc a / 2) (b / 2) a (omega arith),
  differ_lem (suc a % 2) (b % 2) (omega arith) (omega arith),
)

xor_comm_fuel : (n a b : ℕ) → a ≤ n → b ≤ n → bit_xor a b ≡ bit_xor b a
xor_comm_fuel zero zero zero p q = refl
xor_comm_fuel zero zero (suc b) p q = absurd (omega arith)
xor_comm_fuel zero (suc a) b p q = absurd (omega arith)
xor_comm_fuel (suc n) a b p q = omega (
  arith,
  bit_xor_step a b,
  bit_xor_step b a,
  xor_comm_fuel n (a / 2) (b / 2) (omega arith) (omega arith),
)

pub xor_comm : (a b : ℕ) → bit_xor a b ≡ bit_xor b a
xor_comm a b = xor_comm_fuel (a + b) a b (omega arith) (omega arith)

pub bit_xor-zero : (a : ℕ) → bit_xor a 0 ≡ a
bit_xor-zero a = xor_comm a 0 ∙ zero-bit_xor a

xor-div : (a b : ℕ) → bit_xor a b / 2 ≡ bit_xor (a / 2) (b / 2)
xor-div a b = omega (arith, bit_xor_step a b)

xor-mod : (a b : ℕ) → bit_xor a b % 2 ≡ (a % 2 + b % 2) % 2
xor-mod a b = omega (arith, bit_xor_step a b)

xor_assoc_fuel :
    (n a b c : ℕ) → a ≤ n → b ≤ n → c ≤ n → bit_xor (bit_xor a b) c ≡ bit_xor a (bit_xor b c)
xor_assoc_fuel zero zero b c p q r =
    ap (λ t. bit_xor t c) (zero-bit_xor b) ∙ sym (zero-bit_xor (bit_xor b c))
xor_assoc_fuel zero (suc a) b c p q r = absurd (omega arith)
xor_assoc_fuel (suc n) a b c p q r = omega (
  arith,
  bit_xor_step (bit_xor a b) c,
  bit_xor_step a (bit_xor b c),
  ap (λ t. bit_xor t (c / 2)) (xor-div a b),
  ap (bit_xor (a / 2)) (xor-div b c),
  xor-mod a b,
  xor-mod b c,
  xor_assoc_fuel n (a / 2) (b / 2) (c / 2) (omega arith) (omega arith) (omega arith),
)

pub xor_assoc : (a b c : ℕ) → bit_xor (bit_xor a b) c ≡ bit_xor a (bit_xor b c)
xor_assoc a b c = xor_assoc_fuel (a + b + c) a b c (omega arith) (omega arith) (omega arith)

xor_self_fuel : (n a : ℕ) → a ≤ n → bit_xor a a ≡ 0
xor_self_fuel zero zero p = refl
xor_self_fuel zero (suc a) p = absurd (omega arith)
xor_self_fuel (suc n) a p = omega (arith, bit_xor_step a a, xor_self_fuel n (a / 2) (omega arith))

pub xor_self : (a : ℕ) → bit_xor a a ≡ 0
xor_self a = xor_self_fuel a a (omega arith)

-- (a ^ b) ^ (c ^ d) = (a ^ c) ^ (b ^ d)
pub xor_interchange :
    (a b c d : ℕ) → bit_xor (bit_xor a b) (bit_xor c d) ≡ bit_xor (bit_xor a c) (bit_xor b d)
xor_interchange a b c d =
    xor_assoc a b (bit_xor c d)
    ∙ ap (bit_xor a)
        (sym (xor_assoc b c d) ∙ ap (λ t. bit_xor t d) (xor_comm b c) ∙ xor_assoc c b d)
    ∙ sym (xor_assoc a c (bit_xor b d))

pub bit_xor-lt : (k a b : ℕ) → a < 2 ^ k → b < 2 ^ k → bit_xor a b < 2 ^ k
bit_xor-lt zero zero zero p q = omega (arith, zero-bit_xor 0)
bit_xor-lt zero zero (suc b) p q = absurd (omega arith)
bit_xor-lt zero (suc a) b p q = absurd (omega arith)
bit_xor-lt (suc k) a b p q = omega (
  arith,
  pow-suc 2 k,
  bit_xor_step a b,
  bit_xor-lt k (a / 2) (b / 2) (omega (arith, pow-suc 2 k)) (omega (arith, pow-suc 2 k)),
)

pub byte-xor-lt : (a b : ℕ) → a < 256 → b < 256 → bit_xor a b < 256
byte-xor-lt a b p q = bit_xor-lt 8 a b p q

-- The digit of weight `2 ^ j`.
abbrev pub bit : ℕ → ℕ → ℕ
bit zero v = v % 2
bit (suc j) v = bit j (v / 2)

pub bit-lt : (j v : ℕ) → bit j v < 2
bit-lt zero v = omega arith
bit-lt (suc j) v = bit-lt j (v / 2)

pub bit-bit_xor : (j a b : ℕ) → bit j (bit_xor a b) ≡ (bit j a + bit j b) % 2
bit-bit_xor zero a b = xor-mod a b
bit-bit_xor (suc j) a b = ap (bit j) (xor-div a b) ∙ bit-bit_xor j (a / 2) (b / 2)

zero_mul : (c : ℕ) → 0 * c ≡ 0
zero_mul c = omega arith

-- Selecting a byte by a digit turns a sum of digits into a `^` of bytes.
pub select-xor : (x y c : ℕ) → x < 2 → y < 2 → (x + y) % 2 * c ≡ bit_xor (x * c) (y * c)
select-xor zero zero c p q = omega (arith, xor_self (0 * c))
select-xor zero (suc zero) c p q =
    sym (ap (λ t. bit_xor t (1 * c)) (zero_mul c) ∙ zero-bit_xor (1 * c))
select-xor (suc zero) zero c p q = sym (ap (bit_xor (1 * c)) (zero_mul c) ∙ bit_xor-zero (1 * c))
select-xor (suc zero) (suc zero) c p q = omega (arith, xor_self (1 * c))
select-xor zero (suc (suc y)) c p q = absurd (omega arith)
select-xor (suc zero) (suc (suc y)) c p q = absurd (omega arith)
select-xor (suc (suc x)) y c p q = absurd (omega arith)
