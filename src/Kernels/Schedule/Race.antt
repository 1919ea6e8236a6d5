-- ===== src/Kernels/Schedule/Race.antt =====
-- `offset` is shared and changed outside the critical section: a schedule of two rounds in which
-- the second one reads the table of the first group.
use cip_pir.Base.{ℕ, zero, suc, ◌+◌, ◌*◌, ◌<◌, ◌≡◌, arith, refl, ap, ◌∙◌, bit_xor}
use cip_pir.Base.Memory.{Buffer}
use cip_pir.Base.Sum.{xsum, xsum-ext}
use cip_pir.Config.{Config, pre_offset}
use cip_pir.Kernels.Groups.{entry}
use cip_pir.Kernels.Schedule.{Phase, Shared, start_rounds, Move, Runs}
use cip_pir.Kernels.Schedule.Outcome.{Runs-dest}

two_rounds : (a f : ℕ → Phase) → f 0 ≡ a 0 → f 1 ≡ a 1 → (i : ℕ) → i < 2 → f i ≡ a i
two_rounds a f p q zero h = p
two_rounds a f p q (suc zero) h = q
two_rounds a f p q (suc (suc i)) h = absurd (omega arith)

module _ (c : Config) (src query dest : Buffer) where
  -- Both rounds find their address before either of them has moved `offset` on.
  both_found :
      (s : Shared) × Runs c src query 2 (start_rounds dest) s
      × ((i : ℕ) → i < 2 → s.phase i ≡ Phase.done (0 + query i * c.block_size))
  both_found = (
    _,
    Runs.later 1
        (Runs.later 1
          (Runs.later 1
            (Runs.later 0
              (Runs.later 0
                (Runs.later 0
                  (Runs.later 1 (Runs.later 0 Runs.here (omega arith) (Move.finds refl))
                    (omega arith) (Move.finds refl))
                  (omega arith) (Move.reads _ refl))
                (omega arith) (Move.adds _ _ refl))
              (omega arith) (Move.xors _ refl))
            (omega arith) (Move.reads _ refl))
          (omega arith) (Move.adds _ _ refl))
        (omega arith) (Move.xors _ refl),
    two_rounds (λ i. Phase.done (0 + query i * c.block_size)) _ refl refl,
  )

  -- A schedule of two rounds ends with both of them done and, in each byte of the block, the sum of
  -- two entries of the first group's table: the second round has not read its own group's.
  pub second_round_reads_first_table :
      (s : Shared) × Runs c src query 2 (start_rounds dest) s
      × ((i : ℕ) → i < 2 → (temp : ℕ) × (s.phase i ≡ Phase.done temp))
      × ((j : ℕ)
          → j < c.block_size
          → s.dest j ≡ bit_xor (dest j) (xsum 2 (λ i. entry c src 0 (query i) j)))
  second_round_reads_first_table =
      let (s, runs, found) = both_found in
      (
        s,
        runs,
        λ i h. (0 + query i * c.block_size, found i h),
        λ j h.
            Runs-dest c src query 2 dest (λ i. 0 + query i * c.block_size) s j runs found h
            ∙ ap (bit_xor (dest j)) (xsum-ext 2 _ _ (λ i p. ap src (first_table (query i) j))),
      )
    where
      first_table : (v j : ℕ) → 0 + v * c.block_size + j ≡ 0 * pre_offset c + v * c.block_size + j
      first_table v j = omega arith
