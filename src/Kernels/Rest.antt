-- ===== src/Kernels/Rest.antt =====
-- `fastxor` of the groups behind the first.
use cip_pir.Base.{ℕ, zero, suc, ◌+◌, ◌*◌, ◌<◌, ◌≡◌, refl, ap, ◌∙◌, sym, fun_ext, arith}
use cip_pir.Base.Memory.{Buffer, advance}
use cip_pir.Config.{Config, pre_offset}
use cip_pir.Kernels.{xor_full_blocks, fastxor_from, fastxor}

module _ (c : Config) (src query : Buffer) (k offset : ℕ) where
  -- The loop further on is the loop from its start on what stands there.
  fastxor_from-advance :
      (left i o : ℕ) (dest : Buffer)
      → fastxor_from c left (k + i) (offset + o) dest src query
        ≡ fastxor_from c left i o dest (advance src offset) (advance query k)
  unfolding fastxor_from
  fastxor_from-advance zero i o dest = refl
  fastxor_from-advance (suc left) i o dest =
      ap (λ t. fastxor_from c left t (offset + o + pre_offset c) dest' src query) next_group
      ∙ ap (λ t. fastxor_from c left (k + (i + 1)) t dest' src query) next_offset
      ∙ fastxor_from-advance left (i + 1) (o + pre_offset c) dest'
      ∙ ap
          (λ b.
            fastxor_from c left (i + 1) (o + pre_offset c) (xor_full_blocks c dest b)
              (advance src offset) (advance query k))
          (fun_ext λ j. ap src (same_byte (query (k + i) * c.block_size) j))
    where
      dest' : Buffer
      dest' = xor_full_blocks c dest (advance src (offset + o + query (k + i) * c.block_size))

      next_group : k + i + 1 ≡ k + (i + 1)
      next_group = omega arith

      next_offset : offset + o + pre_offset c ≡ offset + (o + pre_offset c)
      next_offset = omega arith

      same_byte : (p j : ℕ) → offset + o + p + j ≡ offset + (o + p + j)
      same_byte p j = omega arith

module _ (c : Config) where
  -- The first group is added, and then the others.
  pub fastxor-suc :
      (dest src query : Buffer) (n : ℕ)
      → fastxor c dest src query (suc n)
        ≡ fastxor c
            (xor_full_blocks c dest (advance src (query 0 * c.block_size)))
            (advance src (pre_offset c))
            (advance query 1)
            n
  unfolding fastxor fastxor_from
  fastxor-suc dest src query n =
      ap (λ b. fastxor_from c n 1 (0 + pre_offset c) (xor_full_blocks c dest b) src query)
        (fun_ext λ j. ap src (omega arith))
      ∙ ap (λ o. fastxor_from c n 1 o first src query) (omega arith)
      ∙ fastxor_from-advance c src query 1 (pre_offset c) n 0 0 first
    where
      first : Buffer
      first = xor_full_blocks c dest (advance src (query 0 * c.block_size))

  -- `fastxor` depends on the bytes of the query for its groups only.
  pub fastxor_query :
      (n : ℕ) (dest src query query' : Buffer)
      → ((g : ℕ) → g < n → query g ≡ query' g)
      → fastxor c dest src query n ≡ fastxor c dest src query' n
  unfolding fastxor fastxor_from
  fastxor_query zero dest src query query' same = refl
  fastxor_query (suc n) dest src query query' same =
      fastxor-suc dest src query n
      ∙ ap
          (λ v.
            fastxor c (xor_full_blocks c dest (advance src (v * c.block_size)))
              (advance src (pre_offset c)) (advance query 1) n)
          (same 0 (omega arith))
      ∙ fastxor_query n _ (advance src (pre_offset c)) (advance query 1) (advance query' 1)
          (λ g h. same (1 + g) (omega arith))
      ∙ sym (fastxor-suc dest src query' n)
