-- ===== src/Kernels/Groups.antt =====
-- What `fastxor` computes, and which bytes it reads.
use cip_pir.Base.{ℕ, zero, suc, ◌+◌, ◌*◌, ◌≤◌, ◌<◌, ◌≡◌, refl, ap, ap₂, ◌∙◌, sym}
use cip_pir.Base.{bit_xor, arith, if◌then◌else◌, ltb}
use cip_pir.Base.{lt→ltb, le→not_ltb, dec_lt}
use cip_pir.Base.Memory.{Buffer, advance, IsBytes}
use cip_pir.Base.Sum.{xsum, xsum-zero, xsum-head, xsum-ext}
use cip_pir.Base.Xor.{xor_assoc, bit_xor-zero}
use cip_pir.Config.{Config, pre_offset}
use cip_pir.Kernels.{xor_full_blocks, fastxor_from, fastxor}
use cip_pir.Kernels.Blocks.{xor_full_blocks_lem}

module _ (c : Config) where
  -- Byte `j` of entry `v` of group `g` of a preprocessed database.
  abbrev pub entry : Buffer → ℕ → ℕ → ℕ → ℕ
  entry src g v j = src (g * pre_offset c + v * c.block_size + j)

  -- Byte `j` of the `^` of the entries that the query bytes select.
  abbrev pub selected : Buffer → Buffer → ℕ → ℕ → ℕ
  selected src query n j = xsum n (λ g. entry src g (query g) j)

  fastxor_from_lem :
      (left i offset : ℕ) (dest src query : Buffer) (j : ℕ)
      → offset ≡ i * pre_offset c
      → j < c.block_size
      → fastxor_from c left i offset dest src query j
        ≡ bit_xor (dest j) (xsum left (λ t. entry src (i + t) (query (i + t)) j))
  unfolding fastxor_from
  fastxor_from_lem zero i offset dest src query j p q =
      sym (ap (bit_xor (dest j)) (xsum-zero _) ∙ bit_xor-zero (dest j))
  fastxor_from_lem (suc left) i offset dest src query j p q =
      fastxor_from_lem left (i + 1) (offset + pre_offset c) dest' src query j (omega arith) q
      ∙ ap₂ bit_xor first refl
      ∙ xor_assoc (dest j) (src (offset + query i * c.block_size + j)) _
      ∙ ap (bit_xor (dest j)) (ap₂ bit_xor here rest ∙ sym (xsum-head left term))
    where
      dest' : Buffer
      dest' = xor_full_blocks c dest (advance src (offset + query i * c.block_size))

      term : ℕ → ℕ
      term t = entry src (i + t) (query (i + t)) j

      first : dest' j ≡ bit_xor (dest j) (src (offset + query i * c.block_size + j))
      first =
          ground
            (arith, xor_full_blocks_lem c dest (advance src (offset + query i * c.block_size)) j)

      here : src (offset + query i * c.block_size + j) ≡ term 0
      here = ap₂ (λ o k. src (o + query k * c.block_size + j)) (omega arith) (omega arith)

      rest :
          xsum left (λ t. entry src (i + 1 + t) (query (i + 1 + t)) j)
          ≡ xsum left (λ t. term (suc t))
      rest = xsum-ext left _ _ λ t h. ap (λ k. entry src k (query k) j) (omega arith)

  -- `fastxor` adds to each byte of `dest` the same byte of one entry for each group, the one that
  -- the query byte of the group selects.
  pub fastxor_lem :
      (dest src query : Buffer) (groups j : ℕ)
      → j < c.block_size
      → fastxor c dest src query groups j ≡ bit_xor (dest j) (selected src query groups j)
  unfolding fastxor
  fastxor_lem dest src query groups j h =
      fastxor_from_lem groups 0 0 dest src query j (omega arith) h
      ∙ ap (bit_xor (dest j))
          (xsum-ext groups _ _ λ t p. ap (λ k. entry src k (query k) j) (omega arith))

  -- Only the bytes of the query that `groups` counts matter.
  pub fastxor-ext :
      (dest src query query' : Buffer) (groups j : ℕ)
      → j < c.block_size
      → ((g : ℕ) → g < groups → query g ≡ query' g)
      → fastxor c dest src query groups j ≡ fastxor c dest src query' groups j
  fastxor-ext dest src query query' groups j h same =
      fastxor_lem dest src query groups j h
      ∙ ap (bit_xor (dest j)) (xsum-ext groups _ _ λ g p. ap (λ v. entry src g v j) (same g p))
      ∙ sym (fastxor_lem dest src query' groups j h)

  fastxor_from_outside :
      (left i offset : ℕ) (dest src query : Buffer) (j : ℕ)
      → c.block_size ≤ j
      → fastxor_from c left i offset dest src query j ≡ dest j
  unfolding fastxor_from
  fastxor_from_outside zero i offset dest src query j h = refl
  fastxor_from_outside (suc left) i offset dest src query j h =
      let from = advance src (offset + query i * c.block_size) in
      fastxor_from_outside left (i + 1) (offset + pre_offset c) (xor_full_blocks c dest from) src
        query j h
      ∙ ground (arith, xor_full_blocks_lem c dest from j)

  pub fastxor-outside :
      (dest src query : Buffer) (groups j : ℕ)
      → c.block_size ≤ j
      → fastxor c dest src query groups j ≡ dest j
  unfolding fastxor
  fastxor-outside dest src query groups j h = fastxor_from_outside groups 0 0 dest src query j h

  pub entry-lt :
      (g v n j : ℕ)
      → g < n
      → v < 256
      → j < c.block_size
      → g * pre_offset c + v * c.block_size + j < n * pre_offset c
  entry-lt g v n j p q r = grind arith

  -- `fastxor` stays inside its buffers: it leaves the bytes of `dest` behind the block alone, and
  -- its result depends on `groups` bytes of the query and `groups` groups of the database only.
  pub fastxor_in_bounds :
      (dest src src' query query' : Buffer) (groups j : ℕ)
      → IsBytes query
      → ((o : ℕ) → o < groups * pre_offset c → src o ≡ src' o)
      → ((g : ℕ) → g < groups → query g ≡ query' g)
      → fastxor c dest src query groups j
        ≡ (if ltb j c.block_size then fastxor c dest src' query' groups j else dest j)
  fastxor_in_bounds dest src src' query query' groups j bytes same_db same_query =
      elim (dec_lt j c.block_size) [
        | yes h ↦ rw (lt→ltb j c.block_size h) (
            fastxor_lem dest src query groups j h
            ∙ ap (bit_xor (dest j)) (
                xsum-ext groups _ _ λ g p.
                  same_db _ (entry-lt g (query g) groups j p (bytes g) h)
                  ∙ ap (λ v. entry src' g v j) (same_query g p))
            ∙ sym (fastxor_lem dest src' query' groups j h))
        | no h ↦
            rw (le→not_ltb j c.block_size (omega arith))
              (unfold fastxor in fastxor_from_outside groups 0 0 dest src query j (omega arith))
      ]
