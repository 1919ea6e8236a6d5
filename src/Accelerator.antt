-- ===== src/Accelerator.antt =====
-- Computation/Accelerator_CUDA.cu and Computation/Accelerator_CUDA.h: the kernels, and the calls of
-- them. What `cudaMalloc` gives is `fresh`; every call of the CUDA library is taken to succeed. The
-- threads of a kernel run here one after the other.
pub mod Kernel
pub mod Compute
use cip_pir.Base.{ℕ, zero, suc, ◌+◌, ◌-◌, ◌*◌, ◌/◌, bit_xor}
use cip_pir.Base.{if◌then◌else◌, ltb, leb, dec_lt}
use cip_pir.Base.Memory.{Buffer, advance, copy, zeros, through, write}
use cip_pir.Config.{Config, pre_offset}

-- CUDA_MAX_THREADS
abbrev pub cuda_max_threads : ℕ
cuda_max_threads = 1024

-- CUDA_TOTAL_THREADS
abbrev pub cuda_total_threads : ℕ
cuda_total_threads = 2048 * 15

-- The four bytes of an `int` at `buf + at`, with those of another one added.
abbrev pub add_word : Buffer → Buffer → ℕ → Buffer
add_word word buf at k = bit_xor (word k) (buf (at + k))

module _ (c : Config) where
  -- CUDA_THREADS
  abbrev pub cuda_threads : ℕ
  cuda_threads =
      if leb (cuda_max_threads * 4) c.block_size then cuda_max_threads else c.block_size / 4

  -- ELEMENTS_PER_THREAD
  abbrev pub elements_per_thread : ℕ
  elements_per_thread =
      if leb (cuda_max_threads * 4) c.block_size then c.block_size / cuda_max_threads / 4 * 2 else 1

  -- CUDA_BLOCKS
  abbrev pub cuda_blocks : ℕ
  cuda_blocks = cuda_total_threads / cuda_threads * 2

  -- `threadOffset`: the macro ELEMENTS_PER_THREAD has no parentheses, so the division is of the
  -- product.
  abbrev pub thread_offset : ℕ → ℕ
  thread_offset t =
      if leb (cuda_max_threads * 4) c.block_size
      then t * c.block_size / cuda_max_threads / 4 * 2 * 4
      else t * 1 * 4

  -- The loop over the rest of the query, from group `g` on, for the word at `at`.
  word_from : ℕ → ℕ → Buffer → Buffer → ℕ → Buffer → Buffer
  word_from zero g db query at word = word
  word_from (suc left) g db query at word =
      let q = query g * c.block_size + g * pre_offset c in
      word_from left (g + 1) db query at (add_word word db (q + at))

  -- `destS[i]` of a thread, at `at` in the block: the first group's word is not added to zero.
  word_of : Buffer → Buffer → ℕ → ℕ → Buffer
  unfolding word_from
  word_of db query groups at =
      word_from (groups - 1) 1 db query at (advance db (query 0 * c.block_size + at))

  -- The writes of one thread, from element `i` on.
  write_elements : ℕ → ℕ → Buffer → Buffer → ℕ → ℕ → Buffer → Buffer
  unfolding word_of
  write_elements zero i db query groups offset dest = dest
  write_elements (suc left) i db query groups offset dest =
      write_elements left (i + 1) db query groups offset
        (copy dest (4 * (i + offset / 4)) (word_of db query groups (4 * i + offset)) 4)

  -- The threads of one block of the grid, from thread `t` on.
  block_threads : ℕ → ℕ → Buffer → Buffer → ℕ → Buffer → Buffer
  unfolding write_elements
  block_threads zero t db query groups dest = dest
  block_threads (suc left) t db query groups dest =
      block_threads left (t + 1) db query groups
        (write_elements elements_per_thread 0 db query groups (thread_offset t) dest)

  -- `vector_xor2` on the blocks of a grid, from block `bid` on.
  grid_from : ℕ → ℕ → Buffer → Buffer → ℕ → Buffer → Buffer
  unfolding block_threads
  grid_from zero bid db queries groups dest = dest
  grid_from (suc left) bid db queries groups dest = grid_from left (bid + 1) db queries groups (
      through dest (bid * c.block_size)
        (block_threads cuda_threads 0 db (advance queries (bid * groups)) groups))

  pub vector_xor2 : ℕ → Buffer → Buffer → ℕ → Buffer → Buffer
  unfolding grid_from
  vector_xor2 grid db queries groups dest = grid_from grid 0 db queries groups dest

  -- The loop of `compute` from seed `j` on, with `data_ptr` at `at`.
  compute_from : ℕ → ℕ → ℕ → ℕ → Buffer → Buffer → ℕ → Buffer → Buffer
  unfolding vector_xor2
  compute_from zero j count at db queries groups dest = dest
  compute_from (suc fuel) j count at db queries groups dest = elim (dec_lt j count) [
    | yes _ ↦
        let grid = if ltb count (j + cuda_blocks) then count - j else cuda_blocks in
        compute_from fuel (j + cuda_blocks) count (at + cuda_blocks) db queries groups
          (through dest (j * c.block_size) (vector_xor2 grid db (advance queries at) groups))
    | no _ ↦ dest
  ]

  -- `compute`, for `db` on the device. A launch is of one block at least, so the number of seeds is
  -- enough fuel.
  pub compute : Buffer → Buffer → Buffer → ℕ → ℕ → Buffer → Buffer
  unfolding compute_from
  compute fresh db dst groups count data_in =
      let queries = copy fresh 0 data_in (groups * count) in
      let dest = compute_from count 0 count 0 db queries groups zeros in
      copy dst 0 dest (c.block_size * count)

  -- `fastXOR`: a block of the query is copied, and a grid of one block launched.
  pub accelerated_fastxor : Buffer → Buffer → Buffer → Buffer → ℕ → Buffer
  unfolding vector_xor2
  accelerated_fastxor fresh db dest query groups =
      let query_c = copy fresh 0 query c.block_size in
      let dest_c = copy fresh 0 dest c.block_size in
      copy dest 0 (vector_xor2 1 db query_c groups dest_c) c.block_size

  -- `vector_xor`, from thread `tid` of the grid on.
  vector_xor_from : ℕ → ℕ → Buffer → Buffer → Buffer
  vector_xor_from zero tid dest src = dest
  vector_xor_from (suc left) tid dest src =
      vector_xor_from left (tid + 1)
        (if ltb tid c.block_size then write dest tid (bit_xor (dest tid) (src tid)) else dest) src

  -- `xorFullBlocks`: `a` is what `cudaMalloc` gave, since `dest` is cleared in its place.
  pub accelerated_xor_full_blocks : Buffer → Buffer → Buffer → Buffer
  unfolding vector_xor_from
  accelerated_xor_full_blocks fresh dest src =
      let a = fresh in
      let b = copy fresh 0 src c.block_size in
      let cleared = copy dest 0 zeros c.block_size in
      copy cleared 0 (vector_xor_from (cuda_blocks * cuda_threads) 0 a b) c.block_size
