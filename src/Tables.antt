-- ===== src/Tables.antt =====
-- What a preprocessed database holds. Each group of `GROUPSIZE` blocks has one entry for each value
-- of a query byte: the `^` of the blocks whose bits are set, the first block at the highest bit.
-- The program that writes it, `preprocess` of database/manageDatabase.cpp, has its loops commented
-- out, so this is a hypothesis on the file that the servers load.
use native.Mathlib.Nat.{div-eq_of_lt-le, mul-add-mod_self_right, mod-eq_of_lt}
use cip_pir.Base.{ℕ, zero, suc, ◌+◌, ◌-◌, ◌*◌, ◌/◌, ◌%◌, ◌^◌, ◌<◌, ◌≡◌, refl, ap, ◌∙◌, bit_xor}
use cip_pir.Base.{
  Bool, arith, ◌==◌, ==_iff, all_below, passes_from, all_below_sound, if◌then◌else◌, true,
}
use cip_pir.Base.Memory.{Buffer}
use cip_pir.Base.Sum.{xsum, xsum-ext, xsum-xor, xsum_zeros, xsum_single}
use cip_pir.Base.Xor.{bit, bit-lt, bit-bit_xor, select-xor}
use cip_pir.Config.{Config, groups, group_size, pre_offset}
use cip_pir.Kernels.Groups.{entry}

-- The `^` of the blocks of group `g` that the bits of `w` select, at byte `j`.
abbrev pub combination : (ℕ → Buffer) → ℕ → ℕ → ℕ → ℕ
combination blocks g w j =
    xsum group_size (λ i. bit (group_size - 1 - i) w * blocks (g * group_size + i) j)

pub record IsTable (c : Config) (table : Buffer) (blocks : ℕ → Buffer) : Type 0 where
  pub entries :
      (g w j : ℕ)
      → g < groups c
      → w < 256
      → j < c.block_size
      → entry c table g w j ≡ combination blocks g w j

bit-zero : (k : ℕ) → bit k 0 ≡ 0
bit-zero zero = refl
bit-zero (suc k) = bit-zero k

pub combination-zero : (blocks : ℕ → Buffer) (g j : ℕ) → combination blocks g 0 j ≡ 0
combination-zero blocks g j =
    xsum_zeros group_size _ λ i h.
      ap (λ t. t * blocks (g * group_size + i) j) (bit-zero (group_size - 1 - i)) ∙ omega arith

pub combination-xor :
    (blocks : ℕ → Buffer) (g a b j : ℕ)
    → combination blocks g (bit_xor a b) j
      ≡ bit_xor (combination blocks g a j) (combination blocks g b j)
combination-xor blocks g a b j =
    xsum-ext group_size _ _ (λ i h.
      ap (λ t. t * blocks (g * group_size + i) j) (bit-bit_xor (group_size - 1 - i) a b)
      ∙ select-xor (bit (group_size - 1 - i) a) (bit (group_size - 1 - i) b) _
          (bit-lt (group_size - 1 - i) a) (bit-lt (group_size - 1 - i) b))
    ∙ xsum-xor group_size _ _

-- The digits of `1 << (7 - i)`, for all of its eight values.
unit_digit : ℕ → ℕ → Bool
unit_digit i t = bit (7 - t) (2 ^ (7 - i)) == (if t == i then 1 else 0)

unit_table : all_below 8 (λ i. all_below 8 (unit_digit i)) ≡ true
unfolding passes_from unit_digit
unit_table = refl

unit_digit_lem : (i t : ℕ) → i < 8 → t < 8 → bit (7 - t) (2 ^ (7 - i)) ≡ (if t == i then 1 else 0)
unfolding unit_digit
unit_digit_lem i t h k =
    (==_iff _ _).0 (all_below_sound 8 (unit_digit i) t (all_below_sound 8 _ i unit_table h) k)

pub combination-unit :
    (blocks : ℕ → Buffer) (g i j : ℕ)
    → i < 8
    → combination blocks g (2 ^ (7 - i)) j ≡ blocks (g * group_size + i) j
combination-unit blocks g i j h =
    xsum_single group_size i _ h (λ t p ne.
      ap (λ d. d * blocks (g * group_size + t) j) (unit_digit_lem i t h p) ∙ ground arith)
    ∙ ap (λ d. d * blocks (g * group_size + i) j) (unit_digit_lem i i h h)
    ∙ ground arith

-- A place that is written as a quotient and a remainder.
place : (n q r : ℕ) → r < n → ((q * n + r) / n ≡ q) × ((q * n + r) % n ≡ r)
place n q r h =
    (div-eq_of_lt-le n (omega arith) (omega arith), mul-add-mod_self_right q n r ∙ mod-eq_of_lt h)

-- The table of any blocks, so that every database has one.
pub table_of : Config → (ℕ → Buffer) → Buffer
table_of c blocks o =
    let rest = o % pre_offset c in
    combination blocks (o / pre_offset c) (rest / c.block_size) (rest % c.block_size)

pub table_of-IsTable : (c : Config) (blocks : ℕ → Buffer) → IsTable c (table_of c blocks) blocks
unfolding table_of
table_of-IsTable c blocks = record {
  entries = λ g w j p q r.
      let row = place c.block_size w j r in
      let group = place (pre_offset c) g (w * c.block_size + j) (grind arith) in
      let assoc : g * pre_offset c + w * c.block_size + j
          ≡ g * pre_offset c + (w * c.block_size + j) =
        omega arith in
      rw (assoc, group.0, group.1, row.0, row.1);
}
