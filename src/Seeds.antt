-- ===== src/Seeds.antt =====
-- The pool of precomputed seed tuples that a peer server (PeerServer/CIP_pirServer.cpp) and a
-- worker of the center server (CenterServer/RAID_pirCenterWorker.cpp) each keep: a ring of
-- `maxSeeds` slots in `precomputedSeeds`, one place to write at and one to read from.
pub mod Slots
pub mod Queue
use cip_pir.Base.{ℕ, zero, suc, ◌+◌, ◌-◌, ◌*◌, ◌^◌, ◌≤◌, ◌<◌, Option, none, some}
use cip_pir.Base.{u32, if◌then◌else◌, ◌==◌}
use cip_pir.Base.Memory.{Buffer, advance, copy}
use cip_pir.Config.{Config, seed_bytes}

-- `precomputedSeeds`, the pointers `currentSeed` and `currentPreSeed` as offsets in it, and
-- `availableSeeds`.
pub record Pool : Type 0 where
  pub memory : Buffer
  pub current_seed : ℕ
  pub current_pre_seed : ℕ
  pub available : ℕ

module _ (c : Config) where
  -- `seedSize`: the tuple is the seed and, behind it, the block.
  abbrev pub seed_size : ℕ
  seed_size = u32 (c.block_size + seed_bytes c)

  -- A step of a pointer: at the end of the array it goes back to the beginning.
  abbrev pub next_slot : ℕ → ℕ
  next_slot at =
      let next = at + (seed_bytes c + c.block_size) in
      if next == u32 (c.number_seeds * seed_size) then 0 else next

  -- What the constructors set up in the memory that `malloc` gives.
  unfoldable pub empty_pool : Buffer → Pool
  empty_pool fresh = record {
    memory = fresh;
    current_seed = 0;
    current_pre_seed = 0;
    available = 0;
  }

  -- The end of the loop body of `precompute`: the seed and the block go into the next slot.
  unfoldable pub store_tuple : Buffer → Buffer → Pool → Pool
  store_tuple seed block p =
      let with_seed = copy p.memory p.current_pre_seed seed (seed_bytes c) in
      let with_block = copy with_seed (p.current_pre_seed + seed_bytes c) block c.block_size in
      record {
        memory = with_block;
        current_seed = p.current_seed;
        current_pre_seed = next_slot p.current_pre_seed;
        available = u32 (p.available + 1);
      }

  -- The part of `nextSeed` behind its wait: the tuple that it copies into `seed`, and the pool
  -- that it leaves.
  abbrev pub copied_tuple : Buffer → Pool → Buffer
  copied_tuple seed p = copy seed 0 (advance p.memory p.current_seed) (seed_bytes c + c.block_size)

  unfoldable pub take_tuple : Pool → Pool
  take_tuple p = record {
    memory = p.memory;
    current_seed = next_slot p.current_seed;
    current_pre_seed = p.current_pre_seed;
    available = u32 (p.available + 2 ^ 32 - 1);
  }

  -- `nextSeed` up to its start of a thread, or `none` while the loop at its head waits.
  unfoldable pub next_seed : Buffer → Pool → Option (Buffer × Pool)
  unfolding take_tuple
  next_seed seed p = if p.available == 0 then none else some (copied_tuple seed p, take_tuple p)
