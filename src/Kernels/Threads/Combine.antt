-- ===== src/Kernels/Threads/Combine.antt =====
-- `combineDest` adds up the blocks.
use cip_pir.Base.{
  ℕ, zero, suc, ◌+◌, ◌-◌, ◌*◌, ◌/◌, ◌^◌, ◌≤◌, ◌<◌, ◌≡◌, ◌⊎◌, inl, inr, arith, refl, ap, ap₂, sym,
  ◌∙◌, bit_xor, if◌then◌else◌, ltb, ◌==◌, true, false, u64, lt→ltb, le→not_ltb, ℕ_discrete,
}
use cip_pir.Base.Memory.{Buffer, advance, through, through-here, through-before}
use cip_pir.Base.Slots.{le_times}
use cip_pir.Base.Xor.{zero-bit_xor}
use cip_pir.Base.Sum.{xsum-suc, xsum-zero, xsum, xsum-ext, xsum-add}
use cip_pir.Config.{Config}
use cip_pir.Kernels.{xor_full_blocks}
use cip_pir.Kernels.Blocks.{xor_full_blocks_lem}
use cip_pir.Kernels.Threads.{xor_within, combine_few, combine_dest}

xsum_one : (f : ℕ → ℕ) → xsum 1 f ≡ f 0
xsum_one f = xsum-suc 0 f ∙ ap (λ s. bit_xor s (f 0)) (xsum-zero f) ∙ zero-bit_xor (f 0)

several : (n : ℕ) → 2 ≤ n → (n == 1) ≡ false
several n h = ground arith

module _ (c : Config) where
  abbrev B : ℕ
  B = c.block_size

  abbrev onto : Buffer → ℕ → Buffer → Buffer
  onto buf from dest = xor_full_blocks c dest (advance buf from)

  xor_within-here :
      (buf : Buffer) (at from j : ℕ)
      → j < B
      → xor_within c buf at from (at + j) ≡ bit_xor (buf (at + j)) (buf (from + j))
  unfolding xor_within
  xor_within-here buf at from j h =
      through-here buf at j (onto buf from)
      ∙ xor_full_blocks_lem c (advance buf at) (advance buf from) j
      ∙ ap (λ b. if b then bit_xor (buf (at + j)) (buf (from + j)) else buf (at + j)) (lt→ltb j B h)

  xor_within-other :
      (buf : Buffer) (at from o : ℕ) → (o < at) ⊎ (at + B ≤ o) → xor_within c buf at from o ≡ buf o
  unfolding xor_within
  xor_within-other buf at from o (inl h) = through-before buf at o (onto buf from) h
  xor_within-other buf at from o (inr h) =
      ap (through buf at (onto buf from)) (sym back)
      ∙ through-here buf at (o - at) (onto buf from)
      ∙ xor_full_blocks_lem c (advance buf at) (advance buf from) (o - at)
      ∙ ap
          (λ b.
            if b
            then bit_xor (buf (at + (o - at))) (buf (from + (o - at)))
            else buf (at + (o - at)))
          (le→not_ltb (o - at) B (omega arith))
      ∙ ap buf back
    where
      back : at + (o - at) ≡ o
      back = omega arith

  -- The branch for two or three blocks is never taken.
  never_few : (n : ℕ) → ltb (u64 (n + 2 ^ 64 - 4)) 0 ≡ false
  never_few n = ground arith

  -- One call, for more than one block.
  abbrev halves : ℕ → ℕ → ℕ → Buffer → Buffer
  halves fuel at n buf =
      let right_at = at + n / 2 * B in
      xor_within c (combine_dest c fuel right_at (n - n / 2) (combine_dest c fuel at (n / 2) buf))
        at right_at

  abbrev first_half : ℕ → ℕ → ℕ → Buffer → Buffer
  first_half fuel at n buf = combine_dest c fuel at (n / 2) buf

  abbrev both_halves : ℕ → ℕ → ℕ → Buffer → Buffer
  both_halves fuel at n buf =
      combine_dest c fuel (at + n / 2 * B) (n - n / 2) (first_half fuel at n buf)

  combine_dest-one : (fuel at : ℕ) (buf : Buffer) → combine_dest c (suc fuel) at 1 buf ≡ buf
  unfolding combine_dest
  combine_dest-one fuel at buf = refl

  combine_dest-halves :
      (fuel at n : ℕ) (buf : Buffer)
      → 2 ≤ n
      → combine_dest c (suc fuel) at n buf ≡ halves fuel at n buf
  unfolding combine_dest
  combine_dest-halves fuel at n buf h =
      ap
        (λ b. elim b as (λ z. Buffer) [
          | true ↦ buf
          | false ↦ elim (ltb (u64 (n + 2 ^ 64 - 4)) 0) as (λ z. Buffer) [
            | true ↦ combine_few c at n buf
            | false ↦ halves fuel at n buf
          ]
        ])
        (several n h)
      ∙ ap
          (λ b. elim b as (λ z. Buffer) [
            | true ↦ combine_few c at n buf
            | false ↦ halves fuel at n buf
          ])
          (never_few n)

  add_times : (a b : ℕ) → (a + b) * B ≡ a * B + b * B
  add_times a b = omega arith

  halved : (n : ℕ) → n / 2 * B + (n - n / 2) * B ≡ n * B
  halved n = sym (add_times (n / 2) (n - n / 2)) ∙ ap (λ t. t * B) (omega arith)

  combine_dest-other :
      (fuel at n : ℕ) (buf : Buffer) (o : ℕ)
      → 1 ≤ n
      → n ≤ fuel
      → (o < at) ⊎ (at + n * B ≤ o)
      → combine_dest c fuel at n buf o ≡ buf o
  combine_dest-other zero at n buf o p q h = absurd (omega arith)
  combine_dest-other (suc fuel) at n buf o p q h = elim (ℕ_discrete n 1) [
    | yes e ↦
        ap (λ t. combine_dest c (suc fuel) at t buf o) e
        ∙ ap (λ f. f o) (combine_dest-one fuel at buf)
    | no m ↦
        ap (λ f. f o) (combine_dest-halves fuel at n buf (omega arith))
        ∙ xor_within-other (both_halves fuel at n buf) at (at + n / 2 * B) o
            (ground (arith, le_times n B p))
        ∙ combine_dest-other fuel (at + n / 2 * B) (n - n / 2) (first_half fuel at n buf) o
            (omega arith) (omega arith) (ground (arith, halved n))
        ∙ combine_dest-other fuel at (n / 2) buf o (omega arith) (omega arith)
            (ground (arith, halved n))
  ]

  -- Each byte of the first block becomes the sum of that byte of all blocks.
  pub combine_dest-here :
      (fuel at n : ℕ) (buf : Buffer) (j : ℕ)
      → 1 ≤ n
      → n ≤ fuel
      → j < B
      → combine_dest c fuel at n buf (at + j) ≡ xsum n (λ t. buf (at + t * B + j))
  combine_dest-here zero at n buf j p q h = absurd (omega arith)
  combine_dest-here (suc fuel) at n buf j p q h = elim (ℕ_discrete n 1) [
    | yes e ↦
        ap (λ t. combine_dest c (suc fuel) at t buf (at + j)) e
        ∙ ap (λ f. f (at + j)) (combine_dest-one fuel at buf)
        ∙ ap buf (omega arith)
        ∙ sym (xsum_one (λ t. buf (at + t * B + j)))
        ∙ ap (λ t. xsum t (λ t. buf (at + t * B + j))) (sym e)
    | no m ↦
        let left = n / 2 in
        let right = n - left in
        let right_at = at + left * B in
        ap (λ f. f (at + j)) (combine_dest-halves fuel at n buf (omega arith))
        ∙ xor_within-here (both_halves fuel at n buf) at right_at j h
        ∙ ap₂ bit_xor
            (combine_dest-other fuel right_at right (first_half fuel at n buf) (at + j)
                (omega arith) (omega arith) (inl (omega (arith, le_times left B (omega arith))))
              ∙ combine_dest-here fuel at left buf j (omega arith) (omega arith) h)
            (combine_dest-here fuel right_at right (first_half fuel at n buf) j (omega arith)
                (omega arith) h
              ∙ xsum-ext right _ _ (λ t p.
                combine_dest-other fuel at left buf (right_at + t * B + j) (omega arith)
                  (omega arith) (inr (omega arith))
                ∙ ap buf (omega (arith, add_times left t))))
        ∙ sym (xsum-add left right (λ t. buf (at + t * B + j)))
        ∙ ap (λ t. xsum t (λ t. buf (at + t * B + j))) (omega arith)
  ]
