-- ===== src/Batch.antt =====
-- `precompute` and `execute` of PeerServer/CIP_pirServer.cpp under USE_CUDA_ON_PEER, and
-- `precompute` of CenterServer/RAID_pirCenterWorker.cpp under USE_CUDA: all free slots of the pool
-- are filled at once. The mutex is held from the first write to the last.
pub mod Writes
pub mod Fills
use cip_pir.Base.{ℕ, zero, suc, ◌+◌, ◌-◌, ◌*◌, ◌^◌, List}
use cip_pir.Base.{u32, if◌then◌else◌, ◌==◌, at}
use cip_pir.Base.Memory.{Buffer, copy, zeros}
use cip_pir.Config.{Config, seed_bytes}
use cip_pir.Chunks.{server_map}
use cip_pir.Server.{Crypto, bytes_to_generate}
use cip_pir.Seeds.{Pool, seed_size, next_slot}
use cip_pir.Accelerator.{compute, accelerated_fastxor}

-- What the loop over the seeds has written: the queries, the pool's memory, and the place of the
-- next seed.
pub record Filled : Type 0 where
  pub query : Buffer
  pub memory : Buffer
  pub current_pre_seed : ℕ

-- What the loop over the blocks has written.
pub record Stored : Type 0 where
  pub memory : Buffer
  pub available : ℕ

module _ (c : Config) where
  -- The step of `currentPreSeed` in the loop over the seeds, which adds `seedSize`.
  abbrev pub next_pre_seed : ℕ → ℕ
  next_pre_seed at =
      let next = at + seed_size c in if next == u32 (c.number_seeds * seed_size c) then 0 else next

  -- The loop over the seeds from `i` on, for `n` bytes of query for each; `gen_rnd` gives `seeds
  -- i`.
  pub fill_from : Crypto → ℕ → (ℕ → List ℕ) → ℕ → ℕ → Filled → Filled
  fill_from k n seeds zero i f = f
  fill_from k n seeds (suc left) i f = fill_from k n seeds left (i + 1) (record {
    query = copy f.query (u32 (i * n)) (k.gen_rnd_from_seed (seeds i) n) n;
    memory = copy f.memory f.current_pre_seed (at (seeds i)) (seed_bytes c);
    current_pre_seed = next_pre_seed f.current_pre_seed;
  })

  -- The loop over the blocks, with `currentPreSeedPointer` at `place`: each round copies from the
  -- front of `dest`.
  pub store_from : Buffer → ℕ → ℕ → Stored → Stored
  store_from dest zero place s = s
  store_from dest (suc left) place s = store_from dest left (next_slot c place) (record {
    memory = copy s.memory (place + seed_bytes c) dest c.block_size;
    available = u32 (s.available + 1);
  })

  -- `seedsToCompute`
  abbrev pub seeds_to_compute : Pool → ℕ
  seeds_to_compute p = u32 (c.number_seeds + 2 ^ 32 - p.available)

  -- What `precompute` does with the mutex held, for `count` seeds. The accelerator has all of `db`,
  -- from its start. `fresh` is what `malloc` left in `query`, and `fresh_data` what `cudaMalloc`
  -- gave.
  pub fill_batch :
      Crypto → Buffer → ℕ → (ℕ → List ℕ) → (fresh fresh_data : Buffer) → ℕ → Pool → Pool
  unfolding fill_from store_from
  fill_batch k db id seeds fresh fresh_data count p =
      let n = bytes_to_generate c id in
      let filled =
        fill_from k n seeds count 0
          (record { query = fresh; memory = p.memory; current_pre_seed = p.current_pre_seed }) in
      let dest = compute c fresh_data db zeros n count filled.query in
      let stored =
        store_from dest count p.current_pre_seed
          (record { memory = filled.memory; available = p.available }) in
      record {
        memory = stored.memory;
        current_seed = p.current_seed;
        current_pre_seed = filled.current_pre_seed;
        available = stored.available;
      }

  -- `precompute`, if the pool does not change before it has the mutex.
  pub precompute_batch :
      Crypto → Buffer → ℕ → (ℕ → List ℕ) → (fresh fresh_data : Buffer) → Pool → Pool
  unfolding fill_batch
  precompute_batch k db id seeds fresh fresh_data p =
      fill_batch k db id seeds fresh fresh_data (seeds_to_compute p) p

  -- `execute` on the accelerator.
  pub execute_accelerated : (fresh db : Buffer) → ℕ → (dest query : Buffer) → Buffer
  execute_accelerated fresh db id dest query =
      accelerated_fastxor c fresh db dest query (at (server_map c) id)
