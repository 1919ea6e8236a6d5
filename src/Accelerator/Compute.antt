-- ===== src/Accelerator/Compute.antt =====
-- What `compute` and `fastXOR` of the accelerator give, next to `fastxor` of Computation/helper.h.
use cip_pir.Base.{
  ℕ, zero, suc, ◌+◌, ◌-◌, ◌*◌, ◌≤◌, ◌<◌, ◌≡◌, arith, refl, ap, sym, ◌∙◌, if◌then◌else◌, ltb, dec_lt,
}
use cip_pir.Base.Memory.{
  Buffer, advance, copy, zeros, copy-inside, through, through-here, through-before,
}
use cip_pir.Base.Cases.{yes_case, no_case}
use cip_pir.Base.Slots.{slot_before, suc-times, times_le}
use cip_pir.Base.Sum.{xsum-ext}
use cip_pir.Base.Xor.{zero-bit_xor}
use cip_pir.Config.{Config}
use cip_pir.Kernels.{fastxor}
use cip_pir.Kernels.Groups.{entry, selected, fastxor_lem}
use cip_pir.Accelerator.{compute_from, compute, vector_xor2, accelerated_fastxor, cuda_blocks}
use cip_pir.Accelerator.Kernel.{IsSmall, some_blocks, vector_xor2-block}

module _ (c : Config) (small : IsSmall c) (db : Buffer) where
  same_selected :
      (query query' : Buffer) (groups k : ℕ)
      → ((g : ℕ) → g < groups → query g ≡ query' g)
      → selected c db query groups k ≡ selected c db query' groups k
  same_selected query query' groups k h =
      xsum-ext groups _ _ λ g l. ap (λ v. entry c db g v k) (h g l)

  -- The number of blocks of the launch at seed `j`.
  abbrev launched : ℕ → ℕ → ℕ
  launched j count = if ltb count (j + cuda_blocks c) then count - j else cuda_blocks c

  abbrev launch : (queries : Buffer) (groups j count : ℕ) (dest : Buffer) → Buffer
  launch queries groups j count dest =
      through dest (j * c.block_size) (vector_xor2 c (launched j count) db queries groups)

  compute_from-more :
      (fuel j count at : ℕ) (queries : Buffer) (groups : ℕ) (dest : Buffer)
      → j < count
      → compute_from c (suc fuel) j count at db queries groups dest
        ≡ compute_from c fuel
            (j + cuda_blocks c)
            count
            (at + cuda_blocks c)
            db
            queries
            groups
            (launch (advance queries at) groups j count dest)
  unfolding compute_from
  compute_from-more fuel j count at queries groups dest h = yes_case (dec_lt j count) h _ _

  compute_from-end :
      (fuel j count at : ℕ) (queries : Buffer) (groups : ℕ) (dest : Buffer)
      → ¬ (j < count)
      → compute_from c fuel j count at db queries groups dest ≡ dest
  unfolding compute_from
  compute_from-end zero j count at queries groups dest h = refl
  compute_from-end (suc fuel) j count at queries groups dest h = no_case (dec_lt j count) h _ _

  compute_from-before :
      (fuel j count at : ℕ) (queries : Buffer) (groups : ℕ) (dest : Buffer) (o : ℕ)
      → o < j * c.block_size
      → compute_from c fuel j count at db queries groups dest o ≡ dest o
  unfolding compute_from
  compute_from-before zero j count at queries groups dest o h = refl
  compute_from-before (suc fuel) j count at queries groups dest o h = elim (dec_lt j count) [
    | yes l ↦
        let wider : (j + cuda_blocks c) * c.block_size
            ≡ j * c.block_size + cuda_blocks c * c.block_size =
          omega arith in
        ap (λ b. b o) (compute_from-more fuel j count at queries groups dest l)
        ∙ compute_from-before fuel (j + cuda_blocks c) count (at + cuda_blocks c) queries groups
            (launch (advance queries at) groups j count dest) o (omega (arith, wider))
        ∙ through-before dest (j * c.block_size) o
            (vector_xor2 c (launched j count) db (advance queries at) groups) h
    | no n ↦ ap (λ b. b o) (compute_from-end (suc fuel) j count at queries groups dest n)
  ]

  -- The launch `r` rounds from now, at its block `s`.
  compute_from-inside :
      (fuel j count at : ℕ) (queries : Buffer) (groups : ℕ) (dest : Buffer) (r s k : ℕ)
      → 1 ≤ groups
      → s < cuda_blocks c
      → j + r * cuda_blocks c + s < count
      → count ≤ j + fuel
      → k < c.block_size
      → compute_from c fuel j count at db queries groups dest
          ((j + r * cuda_blocks c + s) * c.block_size + k)
        ≡ selected c db (advance queries (at + r * cuda_blocks c + s * groups)) groups k
  compute_from-inside zero j count at queries groups dest r s k some p q e h = absurd (omega arith)
  compute_from-inside (suc fuel) j count at queries groups dest zero s k some p q e h =
      let place : (j + 0 * cuda_blocks c + s) * c.block_size + k
          ≡ j * c.block_size + (s * c.block_size + k) =
        omega arith in
      let more : j < count = omega arith in
      let in_grid : s < launched j count = ground arith in
      let inside : s * c.block_size + k < cuda_blocks c * c.block_size =
        slot_before s (cuda_blocks c) c.block_size k p h in
      let vec = vector_xor2 c (launched j count) db (advance queries at) groups in
      ap (λ b. b ((j + 0 * cuda_blocks c + s) * c.block_size + k))
        (compute_from-more fuel j count at queries groups dest more)
      ∙ ap
          (compute_from c fuel (j + cuda_blocks c) count (at + cuda_blocks c) db queries groups
            (launch (advance queries at) groups j count dest))
          place
      ∙ compute_from-before fuel (j + cuda_blocks c) count (at + cuda_blocks c) queries groups
          (launch (advance queries at) groups j count dest) _
          (omega (arith, suc-times j c.block_size, inside))
      ∙ through-here dest (j * c.block_size) (s * c.block_size + k) vec
      ∙ vector_xor2-block c small db (launched j count) (advance queries at) groups
          (advance dest (j * c.block_size)) s k some in_grid h
      ∙ same_selected (advance (advance queries at) (s * groups))
          (advance queries (at + 0 * cuda_blocks c + s * groups)) groups k
          (λ g l. ap queries (omega arith))
  compute_from-inside (suc fuel) j count at queries groups dest (suc r) s k some p q e h =
      let more : j < count = omega arith in
      let round : suc r * cuda_blocks c ≡ cuda_blocks c + r * cuda_blocks c = omega arith in
      let place : j + suc r * cuda_blocks c + s ≡ j + cuda_blocks c + r * cuda_blocks c + s =
        omega (arith, round) in
      ap (λ i. compute_from c (suc fuel) j count at db queries groups dest (i * c.block_size + k))
        place
      ∙ ap (λ b. b ((j + cuda_blocks c + r * cuda_blocks c + s) * c.block_size + k))
          (compute_from-more fuel j count at queries groups dest more)
      ∙ compute_from-inside fuel (j + cuda_blocks c) count (at + cuda_blocks c) queries groups
          (launch (advance queries at) groups j count dest) r s k some p (omega (arith, place))
          (omega (arith, some_blocks c small)) h
      ∙ same_selected (advance queries (at + cuda_blocks c + r * cuda_blocks c + s * groups))
          (advance queries (at + suc r * cuda_blocks c + s * groups)) groups k
          (λ g l. ap queries (omega (arith, round)))

  -- For small blocks and a group or more, `compute` of `count` queries leaves at block `a *
  -- CUDA_BLOCKS + s`, the block `s` of launch `a`, what `fastxor` computes on a cleared block from
  -- the query bytes at `a * CUDA_BLOCKS + s * groups`. So the first launch answers query `s` at
  -- block `s`; a later one starts at the wrong byte unless `groups` is 1.
  pub compute-fastxor :
      (fresh dst : Buffer) (groups count : ℕ) (data_in : Buffer) (a s k : ℕ)
      → 1 ≤ groups
      → s < cuda_blocks c
      → a * cuda_blocks c + s < count
      → k < c.block_size
      → compute c fresh db dst groups count data_in ((a * cuda_blocks c + s) * c.block_size + k)
        ≡ fastxor c zeros db (advance data_in (a * cuda_blocks c + s * groups)) groups k
  unfolding compute
  compute-fastxor fresh dst groups count data_in a s k some p q h =
      copy-inside dst result 0 (c.block_size * count) place place (omega arith)
        (omega (arith, slot_before (a * cuda_blocks c + s) count c.block_size k q h))
      ∙ ap (λ i. result (i * c.block_size + k)) from_zero
      ∙ compute_from-inside count 0 count 0 queries groups zeros a s k some p
          (omega (arith, from_zero)) (omega arith) h
      ∙ same_selected (advance queries (0 + a * cuda_blocks c + s * groups)) (advance data_in at)
          groups k same
      ∙ sym (zero-bit_xor _)
      ∙ sym (fastxor_lem c zeros db (advance data_in at) groups k h)
    where
      queries : Buffer
      queries = copy fresh 0 data_in (groups * count)

      result : Buffer
      result = compute_from c count 0 count 0 db queries groups zeros

      place : ℕ
      place = (a * cuda_blocks c + s) * c.block_size + k

      at : ℕ
      at = a * cuda_blocks c + s * groups

      from_zero : a * cuda_blocks c + s ≡ 0 + a * cuda_blocks c + s
      from_zero = omega arith

      copied : (g : ℕ) → g < groups → at + g < groups * count
      copied g l = omega (
        arith,
        times_le (a * cuda_blocks c) groups some,
        slot_before (a * cuda_blocks c + s) count groups g q l,
      )

      same :
          (g : ℕ) → g < groups → queries (0 + a * cuda_blocks c + s * groups + g) ≡ data_in (at + g)
      same g l = copy-inside fresh data_in 0 (groups * count) _ (at + g) (omega arith) (copied g l)

  -- For small blocks and one to BLOCKSIZE groups, `fastXOR` leaves in the block what `fastxor`
  -- computes on a cleared block: what `dest` held before is lost.
  pub accelerated_fastxor-fastxor :
      (fresh dest query : Buffer) (groups k : ℕ)
      → 1 ≤ groups
      → groups ≤ c.block_size
      → k < c.block_size
      → accelerated_fastxor c fresh db dest query groups k ≡ fastxor c zeros db query groups k
  unfolding accelerated_fastxor
  accelerated_fastxor-fastxor fresh dest query groups k some few h =
      let query_c = copy fresh 0 query c.block_size in
      let dest_c = copy fresh 0 dest c.block_size in
      copy-inside dest (vector_xor2 c 1 db query_c groups dest_c) 0 c.block_size k
        (0 * c.block_size + k) (omega arith) (omega arith)
      ∙ vector_xor2-block c small db 1 query_c groups dest_c 0 k some (omega arith) h
      ∙ same_selected (advance query_c (0 * groups)) query groups k
          (λ g l. copy-inside fresh query 0 c.block_size _ g (omega arith) (omega arith))
      ∙ sym (zero-bit_xor _)
      ∙ sym (fastxor_lem c zeros db query groups k h)
