-- ===== src/Kernels/Threads.antt =====
-- Computation/helper.h under MANUAL_THREADING: `completexor` splits the groups among threads, each
-- of which has a block of its own to add to, and `combineDest` adds up the blocks.
pub mod Combine
pub mod Split
use cip_pir.Base.{ℕ, zero, suc, ◌+◌, ◌-◌, ◌*◌, ◌/◌, ◌%◌, ◌^◌, true, false}
use cip_pir.Base.{u64, if◌then◌else◌, ltb, ◌==◌}
use cip_pir.Base.Memory.{Buffer, advance, copy, zeros, through}
use cip_pir.Config.{Config, pre_offset}
use cip_pir.Kernels.{xor_full_blocks, fastxor}

module _ (c : Config) where
  -- `xorFullBlocks(buf + at, buf + from)`, for two blocks of one buffer.
  xor_within : Buffer → ℕ → ℕ → Buffer
  xor_within buf at from = through buf at (λ dest. xor_full_blocks c dest (advance buf from))

  -- The branch of `combineDest` for two or three blocks, of which the test is on an unsigned
  -- difference.
  combine_few : ℕ → ℕ → Buffer → Buffer
  unfolding xor_within
  combine_few at entries buf =
      let two = xor_within buf at (at + c.block_size) in
      if entries == 3 then xor_within two at (at + 2 * c.block_size) else two

  -- `combineDest(buf + at, entries)`. Each call of its own has fewer blocks, so their number is
  -- enough fuel.
  pub combine_dest : ℕ → ℕ → ℕ → Buffer → Buffer
  unfolding combine_few
  combine_dest zero at entries buf = buf
  combine_dest (suc fuel) at entries buf = elim (entries == 1) [
    | true ↦ buf
    | false ↦ elim (ltb (u64 (entries + 2 ^ 64 - 4)) 0) [
      | true ↦ combine_few at entries buf
      | false ↦
          let left = entries / 2 in
          let right = entries - left in
          let right_at = at + left * c.block_size in
          xor_within (combine_dest fuel right_at right (combine_dest fuel at left buf)) at right_at
    ]
  ]

  -- The loop of `completexor` that starts thread `i`, at `currentGroup`. The threads write to
  -- different blocks of `results`; here each ends before the next one starts.
  run_threads : ℕ → ℕ → ℕ → ℕ → ℕ → Buffer → Buffer → Buffer → Buffer
  run_threads zero i per_thread remaining current src query results = results
  run_threads (suc left) i per_thread remaining current src query results =
      let total = per_thread + (if ltb i remaining then 1 else 0) in
      let own = λ (dest : Buffer).
        fastxor c dest (advance src (current * pre_offset c)) (advance query current) total in
      run_threads left (i + 1) per_thread remaining (current + total) src query
        (through results (i * c.block_size) own)

  -- `completexor` for a number of threads.
  pub completexor : ℕ → Buffer → Buffer → Buffer → ℕ → Buffer
  unfolding combine_dest run_threads
  completexor threads dest src query groups =
      let results = run_threads threads 0 (groups / threads) (groups % threads) 0 src query zeros in
      copy dest 0 (combine_dest threads 0 threads results) c.block_size
