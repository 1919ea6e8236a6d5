-- ===== src/Kernels/Schedule/Outcome.antt =====
-- What `fastxor` computes under OPEN_MP, by the addresses that its rounds have found.
use cip_pir.Base.{
  ℕ, zero, suc, ◌+◌, ◌*◌, ◌<◌, ◌≡◌, arith, refl, ap, ap₂, sym, ◌∙◌, bit_xor, if◌then◌else◌, ◌==◌,
  lt→ltb, ℕ_discrete, ◌≢◌, true, false,
}
use cip_pir.Base.Memory.{Buffer, advance}
use cip_pir.Base.Xor.{xor_assoc, xor_comm, bit_xor-zero}
use cip_pir.Base.Sum.{xsum, xsum-ext, xsum-suc, xsum_zeros}
use cip_pir.Config.{Config, pre_offset}
use cip_pir.Kernels.{fastxor}
use cip_pir.Kernels.Blocks.{xor_full_blocks_lem}
use cip_pir.Kernels.Groups.{fastxor_lem}
use cip_pir.Kernels.Schedule.{Phase, Shared, set_phase, start_rounds, Move, Runs}

set_here : (f : ℕ → ℕ) (t i v : ℕ) → t ≡ i → (if t == i then v else f t) ≡ v
set_here f t i v e = ground arith

set_other : (f : ℕ → ℕ) (t i v : ℕ) → t ≢ i → (if t == i then v else f t) ≡ f t
set_other f t i v n = ground arith

-- Changing a term from zero adds the new one.
xsum-set :
    (n i : ℕ) (f : ℕ → ℕ) (v : ℕ)
    → i < n
    → f i ≡ 0
    → xsum n (λ t. if t == i then v else f t) ≡ bit_xor (xsum n f) v
xsum-set zero i f v h e = absurd (omega arith)
xsum-set (suc n) i f v h e = elim (ℕ_discrete n i) [
  | yes z ↦
      xsum-suc n _
      ∙ ap₂ bit_xor (xsum-ext n _ f (λ t p. set_other f t i v (omega (arith, z))))
          (set_here f n i v z)
      ∙ sym (
          ap (λ s. bit_xor s v)
            (xsum-suc n f ∙ ap (bit_xor (xsum n f)) (ap f z ∙ e) ∙ bit_xor-zero (xsum n f)))
  | no ne ↦
      xsum-suc n _
      ∙ ap₂ bit_xor (xsum-set n i f v (omega (arith, ne)) e) (set_other f n i v ne)
      ∙ xor_assoc (xsum n f) v (f n)
      ∙ ap (bit_xor (xsum n f)) (xor_comm v (f n))
      ∙ sym (xor_assoc (xsum n f) (f n) v)
      ∙ sym (ap (λ s. bit_xor s v) (xsum-suc n f))
]

module _ (c : Config) (src query : Buffer) (groups : ℕ) (dest : Buffer) where
  -- What a round has added to byte `j`.
  abbrev added : ℕ → Phase → ℕ
  added j (Phase.done temp) = src (temp + j)
  added j Phase.ready = 0
  added j (Phase.addressed temp) = 0
  added j (Phase.loaded temp old) = 0
  added j (Phase.advanced temp) = 0

  abbrev IsSummed : ℕ → Shared → Type 0
  IsSummed j s = s.dest j ≡ bit_xor (dest j) (xsum groups (λ i. added j (s.phase i)))

  added-set :
      (j : ℕ) (phases : ℕ → Phase) (i : ℕ) (p : Phase) (t : ℕ)
      → (if t == i then added j p else added j (phases t)) ≡ added j (set_phase phases i p t)
  added-set j phases i p t =
      elim (t == i)
        as (λ b.
          (if b then added j p else added j (phases t)) ≡ added j (if b then p else phases t)) [
            | true ↦ refl
            | false ↦ refl
          ]

  -- A step that adds nothing.
  quiet :
      (j i : ℕ) (s : Shared) (p : Phase)
      → added j p ≡ 0
      → added j (s.phase i) ≡ 0
      → bit_xor (dest j) (xsum groups (λ t. added j (s.phase t)))
        ≡ bit_xor (dest j) (xsum groups (λ t. added j (set_phase s.phase i p t)))
  quiet j i s p e d =
      ap (bit_xor (dest j)) (xsum-ext groups _ _ λ t l. same t ∙ added-set j s.phase i p t)
    where
      same : (t : ℕ) → added j (s.phase t) ≡ (if t == i then added j p else added j (s.phase t))
      same t = elim (ℕ_discrete t i) [
        | yes z ↦
            ap (λ k. added j (s.phase k)) z
            ∙ d
            ∙ sym e
            ∙ sym (set_here (λ k. added j (s.phase k)) t i (added j p) z)
        | no n ↦ sym (set_other (λ k. added j (s.phase k)) t i (added j p) n)
      ]

  Move-IsSummed :
      (j i : ℕ) (s : Shared) {t : Shared}
      → j < c.block_size
      → i < groups
      → Move c src query groups s i t
      → IsSummed j s
      → IsSummed j t
  Move-IsSummed j i s h l (Move.finds e) z = z ∙ quiet j i s _ refl (ap (added j) e)
  Move-IsSummed j i s h l (Move.reads temp e) z = z ∙ quiet j i s _ refl (ap (added j) e)
  Move-IsSummed j i s h l (Move.adds temp old e) z = z ∙ quiet j i s _ refl (ap (added j) e)
  Move-IsSummed j i s h l (Move.xors temp e) z =
      xor_full_blocks_lem c s.dest (advance src temp) j
      ∙ ap (λ b. if b then bit_xor (s.dest j) (src (temp + j)) else s.dest j)
          (lt→ltb j c.block_size h)
      ∙ ap (λ x. bit_xor x (src (temp + j))) z
      ∙ xor_assoc (dest j) _ (src (temp + j))
      ∙ ap (bit_xor (dest j)) (
          sym (xsum-set groups i (λ t. added j (s.phase t)) (src (temp + j)) l (ap (added j) e))
          ∙ xsum-ext groups _ _ (λ t p. added-set j s.phase i (Phase.done temp) t))

  Runs-IsSummed :
      (j : ℕ) {t : Shared}
      → j < c.block_size
      → Runs c src query groups (start_rounds dest) t
      → IsSummed j t
  Runs-IsSummed j h Runs.here =
      sym (bit_xor-zero (dest j)) ∙ ap (bit_xor (dest j)) (sym (xsum_zeros groups _ (λ t p. refl)))
  Runs-IsSummed j h (Runs.later i r l m) = Move-IsSummed j i _ h l m (Runs-IsSummed j h r)

  -- Whatever the threads do, once all rounds are done, each byte of the block has added to it the
  -- bytes at the addresses that the rounds have found.
  pub Runs-dest :
      (temp : ℕ → ℕ) (s : Shared) (j : ℕ)
      → Runs c src query groups (start_rounds dest) s
      → ((i : ℕ) → i < groups → s.phase i ≡ Phase.done (temp i))
      → j < c.block_size
      → s.dest j ≡ bit_xor (dest j) (xsum groups (λ i. src (temp i + j)))
  Runs-dest temp s j r d h =
      Runs-IsSummed j h r
      ∙ ap (bit_xor (dest j)) (xsum-ext groups _ _ (λ i l. ap (added j) (d i l)))

  -- If every round has found the address that it has in order, the result is that of the loop run
  -- in order, in whatever order the blocks were added.
  pub Runs-fastxor :
      (s : Shared) (j : ℕ)
      → Runs c src query groups (start_rounds dest) s
      → ((i : ℕ) → i < groups → s.phase i ≡ Phase.done (i * pre_offset c + query i * c.block_size))
      → j < c.block_size
      → s.dest j ≡ fastxor c dest src query groups j
  Runs-fastxor s j r d h =
      Runs-dest (λ i. i * pre_offset c + query i * c.block_size) s j r d h
      ∙ sym (fastxor_lem c dest src query groups j h)
