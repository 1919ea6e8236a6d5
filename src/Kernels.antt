-- ===== src/Kernels.antt =====
-- Computation/helper.h: the `^` kernels on blocks, on groups of blocks and on queries.
pub mod Blocks
pub mod Groups
pub mod Rest
pub mod Threads
pub mod Schedule
use cip_pir.Base.{ℕ, zero, suc, ◌+◌, ◌-◌, ◌*◌, ◌/◌, ◌<◌, ◌≡◌, bit_xor}
use cip_pir.Base.Memory.{Buffer, advance, write, copy}
use cip_pir.Config.{Config, pre_offset}

-- The loop of `xorBytes` at index `i`, with `left` bytes to go: `dest[i] ^= data[i]`.
xor_bytes_from : ℕ → ℕ → Buffer → Buffer → Buffer
xor_bytes_from zero i dest src = dest
xor_bytes_from (suc left) i dest src =
    xor_bytes_from left (i + 1) (write dest i (bit_xor (dest i) (src i))) src

pub xor_bytes : Buffer → Buffer → ℕ → Buffer
unfolding xor_bytes_from
xor_bytes dest src bytes = xor_bytes_from bytes 0 dest src

-- The plain loop of `xorFullBlocks`: `dest[i] = data[i] ^ dest[i]`.
xor_block_from : ℕ → ℕ → Buffer → Buffer → Buffer
xor_block_from zero i dest src = dest
xor_block_from (suc left) i dest src =
    xor_block_from left (i + 1) (write dest i (bit_xor (src i) (dest i))) src

-- A vector unit, which the repository does not implement: registers of `width` bytes, of which
-- `xor_si` is the exclusive or, byte by byte (`_mm512_xor_si512`, `_mm256_xor_si256`).
pub record VectorUnit : Type 0 where
  pub width : ℕ
  pub width_pos : 0 < width
  pub xor_si : Buffer → Buffer → Buffer
  pub xor_si_lane : (x y : Buffer) (k : ℕ) → k < width → xor_si x y k ≡ bit_xor (x k) (y k)

-- The vector loop of `xorFullBlocks`: load register `i` of both, `^`, store.
xor_vectors_from : VectorUnit → ℕ → ℕ → Buffer → Buffer → Buffer
xor_vectors_from u zero i dest src = dest
xor_vectors_from u (suc left) i dest src =
    let x = advance dest (i * u.width) in
    let y = advance src (i * u.width) in
    xor_vectors_from u left (i + 1) (copy dest (i * u.width) (u.xor_si x y) u.width) src

module _ (c : Config) where
  -- `xorFullBlocks` with no vector option.
  pub xor_full_blocks : Buffer → Buffer → Buffer
  unfolding xor_block_from
  xor_full_blocks dest src = xor_block_from c.block_size 0 dest src

  -- `xorFullBlocks` under AVX512, AVX2 or SSE: whole registers, then the bytes that are left.
  pub xor_full_blocks_vector : VectorUnit → Buffer → Buffer → Buffer
  unfolding xor_vectors_from xor_bytes_from
  xor_full_blocks_vector u dest src =
      let registers = c.block_size / u.width in
      let dest' = xor_vectors_from u registers 0 dest src in
      xor_bytes_from (c.block_size - registers * u.width) (registers * u.width) dest' src

  -- The loop of `fastxor` at group `i`, its variable `offset` at `i * preOffset`.
  fastxor_from : ℕ → ℕ → ℕ → Buffer → Buffer → Buffer → Buffer
  fastxor_from zero i offset dest src query = dest
  fastxor_from (suc left) i offset dest src query =
      let temp = offset + query i * c.block_size in
      fastxor_from left (i + 1) (offset + pre_offset c) (xor_full_blocks dest (advance src temp))
        src query

  -- `fastxor`, its loop run in order.
  pub fastxor : Buffer → Buffer → Buffer → ℕ → Buffer
  unfolding fastxor_from
  fastxor dest src query groups = fastxor_from groups 0 0 dest src query
