-- ===== src/Base/Slots.antt =====
-- Arrays of slots of `s` bytes each: slot `a` starts at `a * s`.
use Prim.Native.Nat.{ℕ, zero, suc, ◌+◌, ◌*◌, ◌≤◌, ◌<◌}
use mathlib.Core.Path.{◌≡◌, ap}
use mathlib.Core.Logic.{◌≢◌, ◌⊎◌, inl, inr}
use native.Mathlib.Decide.{dec_lt, ℕ_discrete}
use native.Mathlib.Omega.{arith}

pub suc-times : (b s : ℕ) → suc b * s ≡ b * s + s
suc-times b s = omega arith

pub slot_before : (a b s j : ℕ) → a < b → j < s → a * s + j < b * s
slot_before a zero s j p q = absurd (omega arith)
slot_before a (suc b) s j p q = elim (ℕ_discrete a b) [
  | yes e ↦ omega (arith, suc-times b s, ap (λ t. t * s) e)
  | no n ↦ omega (arith, suc-times b s, slot_before a b s j (omega arith) q)
]

pub le_times : (n s : ℕ) → 1 ≤ n → s ≤ n * s
le_times zero s h = absurd (omega arith)
le_times (suc n) s h = omega (arith, suc-times n s)

pub times_le : (n s : ℕ) → 1 ≤ s → n ≤ n * s
times_le zero s h = omega arith
times_le (suc n) s h = omega (arith, suc-times n s, times_le n s h)

pub slot_end : (b a s : ℕ) → b < a → b * s + s ≤ a * s
slot_end b a zero h = omega arith
slot_end b a (suc s) h = omega (arith, slot_before b a (suc s) s h (omega arith))

-- The bytes of two slots are apart.
pub slots_apart : (a b s j : ℕ) → a ≢ b → j < s → (a * s + j < b * s) ⊎ (b * s + s ≤ a * s + j)
slots_apart a b s j n l = elim (dec_lt a b) [
  | yes h ↦ inl (slot_before a b s j h l)
  | no h ↦ inr (omega (arith, slot_end b a s (omega arith)))
]
