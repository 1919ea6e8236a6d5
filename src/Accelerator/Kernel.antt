-- ===== src/Accelerator/Kernel.antt =====
-- What `vector_xor2` computes for blocks of fewer than 4096 bytes.
use cip_pir.Base.{
  ℕ, zero, suc, ◌+◌, ◌-◌, ◌*◌, ◌/◌, ◌≤◌, ◌<◌, ◌≡◌, ◌⊎◌, inl, inr, arith, refl, ap, ap₂, sym, ◌∙◌,
  bit_xor, leb, false, dec_lt, ℕ_discrete,
}
use cip_pir.Base.Memory.{
  Buffer, advance, copy, copy-inside, copy-outside, through, through-here, through-before,
  through-at,
}
use cip_pir.Base.Slots.{slot_before, suc-times}
use native.Mathlib.Nat.{le-div_iff_mul-le}
use cip_pir.Base.Xor.{xor_assoc, bit_xor-zero}
use cip_pir.Base.Sum.{xsum, xsum-ext, xsum-zero, xsum-head}
use cip_pir.Config.{Config, pre_offset}
use cip_pir.Kernels.Groups.{entry, selected}
use cip_pir.Accelerator.{
  word_from, word_of, write_elements, block_threads, grid_from, vector_xor2, thread_offset,
  cuda_threads, elements_per_thread, cuda_max_threads, cuda_blocks, cuda_total_threads,
}

-- A block is whole words, and one thread for each word is allowed.
pub record IsSmall (c : Config) : Type 0 where
  pub some_word : 4 ≤ c.block_size
  pub words : c.block_size / 4 * 4 ≡ c.block_size
  pub one_each : c.block_size < 4096

no_leb : (c : Config) → IsSmall c → leb (cuda_max_threads * 4) c.block_size ≡ false
no_leb c small = ground (arith, small.one_each)

threads_eq : (c : Config) → IsSmall c → 4 * cuda_threads c ≡ c.block_size
threads_eq c small = rw (no_leb c small) (omega (arith, small.words))

module _ (c : Config) (db query : Buffer) where
  abbrev term : ℕ → ℕ → ℕ
  term o g = db (query g * c.block_size + g * pre_offset c + o)

  word_from_lem :
      (left g at k : ℕ) (word : Buffer)
      → word_from c left g db query at word k
        ≡ bit_xor (word k) (xsum left (λ t. term (at + k) (g + t)))
  unfolding word_from
  word_from_lem zero g at k word = sym (ap (bit_xor (word k)) (xsum-zero _) ∙ bit_xor-zero (word k))
  word_from_lem (suc left) g at k word =
      word_from_lem left (g + 1) at k _
      ∙ xor_assoc (word k) _ _
      ∙ ap (bit_xor (word k))
          (ap₂ bit_xor here rest ∙ sym (xsum-head left (λ t. term (at + k) (g + t))))
    where
      here : db (query g * c.block_size + g * pre_offset c + at + k) ≡ term (at + k) (g + 0)
      here =
          let e : g ≡ g + 0 = omega arith in
          let o : query g * c.block_size + g * pre_offset c + at + k
              ≡ query g * c.block_size + g * pre_offset c + (at + k) =
            omega arith in
          ap db o ∙ ap (term (at + k)) e

      rest : xsum left (λ t. term (at + k) (g + 1 + t)) ≡ xsum left (λ t. term (at + k) (g + suc t))
      rest = xsum-ext left _ _ λ t h. ap (term (at + k)) (omega arith)

  -- A word is the sum of its bytes over all groups.
  word_of_lem :
      (groups at k : ℕ)
      → 1 ≤ groups
      → word_of c db query groups at k ≡ selected c db query groups (at + k)
  unfolding word_of
  word_of_lem zero at k h = absurd (omega arith)
  word_of_lem (suc n) at k h =
      let e : suc n - 1 ≡ n = omega arith in
      ap (λ m. word_from c m 1 db query at first k) e
      ∙ word_from_lem n 1 at k first
      ∙ ap₂ bit_xor here (xsum-ext n _ _ λ t p. later t)
      ∙ sym (xsum-head n (λ g. entry c db g (query g) (at + k)))
    where
      first : Buffer
      first = advance db (query 0 * c.block_size + at)

      here : db (query 0 * c.block_size + at + k) ≡ entry c db 0 (query 0) (at + k)
      here = ap db (omega arith)

      later : (t : ℕ) → term (at + k) (1 + t) ≡ entry c db (suc t) (query (suc t)) (at + k)
      later t = let e : 1 + t ≡ suc t = omega arith in ap (term (at + k)) e ∙ ap db (omega arith)

  -- Of a small block each thread writes one word.
  thread_lem :
      (dest : Buffer) (t groups : ℕ)
      → IsSmall c
      → write_elements c (elements_per_thread c) 0 db query groups (thread_offset c t) dest
        ≡ copy dest (4 * t) (word_of c db query groups (4 * t)) 4
  unfolding write_elements
  thread_lem dest t groups small =
      rw (no_leb c small)
        (ap₂ (λ a b. copy dest a (word_of c db query groups b) 4) (omega arith) (omega arith))

  -- The threads from `t` on write the words from `t` on.
  block_threads-inside :
      (left t groups j : ℕ) (dest : Buffer)
      → IsSmall c
      → 1 ≤ groups
      → j < 4 * (t + left)
      → (j < 4 * t → dest j ≡ selected c db query groups j)
      → block_threads c left t db query groups dest j ≡ selected c db query groups j
  unfolding block_threads
  block_threads-inside zero t groups j dest small some h done = done (omega arith)
  block_threads-inside (suc left) t groups j dest small some h done =
      block_threads-inside left (t + 1) groups j _ small some (omega arith) λ l.
        ap (λ b. b j) (thread_lem dest t groups small) ∙ elim (dec_lt j (4 * t)) [
          | yes e ↦
              copy-outside dest (word_of c db query groups (4 * t)) (4 * t) 4 j (inl e) ∙ done e
          | no e ↦
              copy-inside dest (word_of c db query groups (4 * t)) (4 * t) 4 j (j - 4 * t)
                (omega arith) (omega arith)
              ∙ word_of_lem groups (4 * t) (j - 4 * t) some
              ∙ ap (selected c db query groups) (omega arith)
        ]

  block_threads-outside :
      (left t groups j : ℕ) (dest : Buffer)
      → IsSmall c
      → 4 * (t + left) ≤ j
      → block_threads c left t db query groups dest j ≡ dest j
  unfolding block_threads
  block_threads-outside zero t groups j dest small h = refl
  block_threads-outside (suc left) t groups j dest small h =
      block_threads-outside left (t + 1) groups j _ small (omega arith)
      ∙ ap (λ b. b j) (thread_lem dest t groups small)
      ∙ copy-outside dest (word_of c db query groups (4 * t)) (4 * t) 4 j (inr (omega arith))

module _ (c : Config) (small : IsSmall c) (db : Buffer) where
  -- One block of the grid.
  one_block :
      (query : Buffer) (groups j : ℕ) (dest : Buffer)
      → 1 ≤ groups
      → j < c.block_size
      → block_threads c (cuda_threads c) 0 db query groups dest j ≡ selected c db query groups j
  one_block query groups j dest some h =
      block_threads-inside c db query (cuda_threads c) 0 groups j dest small some
        (omega (arith, threads_eq c small)) (λ l. absurd (omega arith))

  one_block_outside :
      (query : Buffer) (groups j : ℕ) (dest : Buffer)
      → c.block_size ≤ j
      → block_threads c (cuda_threads c) 0 db query groups dest j ≡ dest j
  one_block_outside query groups j dest h =
      block_threads-outside c db query (cuda_threads c) 0 groups j dest small
        (omega (arith, threads_eq c small))

  grid_from-outside :
      (left bid : ℕ) (queries : Buffer) (groups : ℕ) (dest : Buffer) (o : ℕ)
      → (o < bid * c.block_size) ⊎ ((bid + left) * c.block_size ≤ o)
      → grid_from c left bid db queries groups dest o ≡ dest o
  unfolding grid_from
  grid_from-outside zero bid queries groups dest o h = refl
  grid_from-outside (suc left) bid queries groups dest o (inl h) =
      grid_from-outside left (bid + 1) queries groups _ o (inl (omega arith))
      ∙ through-before dest (bid * c.block_size) o
          (block_threads c (cuda_threads c) 0 db (advance queries (bid * groups)) groups) h
  grid_from-outside (suc left) bid queries groups dest o (inr h) =
      let at_end : bid * c.block_size ≤ o = omega (arith, suc-times left c.block_size) in
      grid_from-outside left (bid + 1) queries groups _ o (inr (omega arith))
      ∙ through-at dest (bid * c.block_size) o
          (block_threads c (cuda_threads c) 0 db (advance queries (bid * groups)) groups) at_end
      ∙ one_block_outside (advance queries (bid * groups)) groups (o - bid * c.block_size)
          (advance dest (bid * c.block_size)) (omega arith)
      ∙ ap dest (omega arith)

  grid_from-inside :
      (left bid : ℕ) (queries : Buffer) (groups : ℕ) (dest : Buffer) (b j : ℕ)
      → 1 ≤ groups
      → bid ≤ b
      → b < bid + left
      → j < c.block_size
      → grid_from c left bid db queries groups dest (b * c.block_size + j)
        ≡ selected c db (advance queries (b * groups)) groups j
  unfolding grid_from
  grid_from-inside zero bid queries groups dest b j some from to h = absurd (omega arith)
  grid_from-inside (suc left) bid queries groups dest b j some from to h = elim (ℕ_discrete bid b) [
    | yes e ↦
        grid_from-outside left (bid + 1) queries groups _ (b * c.block_size + j)
          (inl (slot_before b (bid + 1) c.block_size j (omega (arith, e)) h))
        ∙ (let p : b * c.block_size + j ≡ bid * c.block_size + j =
              ap (λ a. a * c.block_size + j) (sym e) in
            let q : bid ≡ b = e in
            ap
              (through dest (bid * c.block_size)
                (block_threads c (cuda_threads c) 0 db (advance queries (bid * groups)) groups))
              p
            ∙ through-here dest (bid * c.block_size) j
                (block_threads c (cuda_threads c) 0 db (advance queries (bid * groups)) groups)
            ∙ one_block (advance queries (bid * groups)) groups j
                (advance dest (bid * c.block_size)) some h
            ∙ ap (λ a. selected c db (advance queries (a * groups)) groups j) q)
    | no n ↦ grid_from-inside left (bid + 1) queries groups _ b j some (omega arith) (omega arith) h
  ]

  -- Block `b` of the grid gets the sum of the entries that its part of the queries selects.
  pub vector_xor2-block :
      (grid : ℕ) (queries : Buffer) (groups : ℕ) (dest : Buffer) (b j : ℕ)
      → 1 ≤ groups
      → b < grid
      → j < c.block_size
      → vector_xor2 c grid db queries groups dest (b * c.block_size + j)
        ≡ selected c db (advance queries (b * groups)) groups j
  unfolding vector_xor2
  vector_xor2-block grid queries groups dest b j some h l =
      grid_from-inside grid 0 queries groups dest b j some (omega arith) (omega arith) l

pub some_blocks : (c : Config) → IsSmall c → 1 ≤ cuda_blocks c
some_blocks c small =
    let some_thread : 0 < cuda_threads c = omega (arith, threads_eq c small, small.some_word) in
    let fits : 1 * cuda_threads c ≤ cuda_total_threads =
      omega (arith, threads_eq c small, small.one_each) in
    let one : 1 ≤ cuda_total_threads / cuda_threads c = (le-div_iff_mul-le some_thread).1 fits in
    omega (arith, one)
