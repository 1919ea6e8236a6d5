-- ===== src/Config/Sizes.antt =====
-- The sizes of config.h cover the database without slack of a whole block or group.
use native.Mathlib.Nat.{pow-suc, div-le_self}
use cip_pir.Base.{ℕ, zero, suc, ◌+◌, ◌-◌, ◌*◌, ◌/◌, ◌^◌, ◌≤◌, ◌<◌, ◌≡◌, ap, arith}
use cip_pir.Base.{Bool-cases, inl, inr, ◌==◌}
use cip_pir.Config.{Config, IsConfig, blocks, groups, bits_fuel, bits_to_represent}

-- `(x + y - 1) / y` rounds up.
pub ceiling_bounds : (x y : ℕ) → 1 ≤ y → (x ≤ (x + y - 1) / y * y) × ((x + y - 1) / y * y < x + y)
ceiling_bounds x y h = grind arith

blocks_lem :
    (c : Config)
    → IsConfig c
    → blocks c ≡ (c.entries * c.entry_size + c.block_size - 1) / c.block_size
blocks_lem c v = ap (λ x. x / c.block_size) (omega arith)

-- The blocks cover the entries and the groups cover the blocks, each with less than one block
-- and one group of padding.
pub sizes_cover :
    (c : Config)
    → IsConfig c
    → (c.entries * c.entry_size ≤ blocks c * c.block_size)
      × (blocks c * c.block_size < c.entries * c.entry_size + c.block_size)
      × (blocks c ≤ groups c * 8)
      × (groups c * 8 < blocks c + 8)
sizes_cover c v =
    let b = ceiling_bounds (c.entries * c.entry_size) c.block_size v.some_block in
    let e = blocks_lem c v in
    let few : blocks c ≤ c.entries * c.entry_size + c.block_size =
      omega (arith, e, div-le_self (c.entries * c.entry_size + c.block_size - 1) c.block_size) in
    let (lo, hi) = rw (← e) at b in (lo, hi, omega arith, omega arith)

bits_fuel_bounds :
    (f n : ℕ) → 1 ≤ n → n < 2 ^ f → (n < 2 ^ bits_fuel f n) × (2 ^ bits_fuel f n ≤ 2 * n)
unfolding bits_fuel
bits_fuel_bounds zero n p q = absurd (omega arith)
bits_fuel_bounds (suc f) n p q = elim (Bool-cases (n == 1)) [
  | inl one ↦ ground arith
  | inr more ↦
      let half = bits_fuel_bounds f (n / 2) (ground arith) (omega (arith, pow-suc 2 f)) in
      ground (arith, pow-suc 2 (bits_fuel f (n / 2)), half)
]

-- `bitsToRepresent` of a positive `uint64_t` is the least number of binary digits that holds it.
pub bits_to_represent_bounds :
    (n : ℕ) → 1 ≤ n → n < 2 ^ 64 → (n < 2 ^ bits_to_represent n) × (2 ^ bits_to_represent n ≤ 2 * n)
unfolding bits_to_represent
bits_to_represent_bounds n p q = bits_fuel_bounds 64 n p q
