-- ===== src/Center.antt =====
-- CenterServer/RAID_pirCenterWorker.cpp: a worker of the center server, which precomputes the
-- tuples of one peer server. Its threads, `precompute` and `transfer`, interleave between the
-- places where they lock the mutex.
pub mod Producing
pub mod Invariant
pub mod Stall
use cip_pir.Base.{ℕ, ◌+◌, ◌-◌, ◌/◌, ◌≤◌, ◌<◌, ◌≡◌, ◌≢◌, List, Option, Bool, true, false, not}
use cip_pir.Base.{u32, if◌then◌else◌, leb, at, ◌&&◌}
use cip_pir.Base.Memory.{Buffer}
use cip_pir.Config.{Config}
use cip_pir.Server.{Crypto, DbFile, Loaded, read_db, precompute_block}
use cip_pir.Seeds.{Pool, empty_pool, store_tuple, take_tuple}

-- Where the thread that runs `transfer` stands in `nextSeed`: in the wait loop, or behind it and
-- before the lock.
pub data Reader : Type 0 where
  waits passed : Reader

-- The worker's pool and its flag `precomputing`; whether the constructor has ended; how many
-- threads run `precompute` and stand before the test of the loop, behind it and before the lock, or
-- behind the loop; and the one thread that runs `transfer`.
pub record Worker : Type 0 where
  pub pool : Pool
  pub precomputing : Bool
  pub constructed : Bool
  pub testing : ℕ
  pub storing : ℕ
  pub leaving : ℕ
  pub reader : Reader

module _ (c : Config) where
  -- `readDB` of a worker: the reads and checks of the peer server's `readDB`, for its id.
  pub worker_read_db : Option DbFile → ℕ → ℕ → Buffer → Buffer → Loaded
  worker_read_db file id fe_size fresh fresh_key = read_db c file id fe_size fresh fresh_key

  -- The constructor up to the start of the first thread; the flag is false from its declaration
  -- on.
  unfoldable pub start_worker : Buffer → Worker
  start_worker fresh = record {
    pool = empty_pool c fresh;
    precomputing = false;
    constructed = false;
    testing = 1;
    storing = 0;
    leaving = 0;
    reader = Reader.waits;
  }

  -- The rest of the constructor: `precomputing = true`.
  unfoldable pub construct : Worker → Worker
  construct w = record w { precomputing = true; constructed = true }

  -- `availableSeeds <= (uint32_t)(maxSeeds / 2)` and no thread precomputes: the condition of
  -- `nextSeed` for a new thread, after the tuple is taken.
  abbrev pub needs_producer : Worker → Bool
  needs_producer w = not w.precomputing && leb (take_tuple c w.pool).available (c.number_seeds / 2)

  -- The locked part of `nextSeed`. It is one step although it starts the thread before it sets the
  -- flag: the flag is read here only, under the mutex, and the new thread, which finds half of the
  -- pool free, does no more than the loop's first test before it waits for the mutex.
  unfoldable pub take_and_launch : Worker → Worker
  take_and_launch w =
      let launch = needs_producer w in
      record {
        pool = take_tuple c w.pool;
        precomputing = if launch then true else w.precomputing;
        constructed = w.constructed;
        testing = if launch then w.testing + 1 else w.testing;
        storing = w.storing;
        leaving = w.leaving;
        reader = Reader.waits;
      }

  -- The locked part of the loop of `precompute` on the CPU, for the seed that `gen_rnd` gave.
  unfoldable pub store_and_test : Crypto → Buffer → ℕ → List ℕ → Worker → Worker
  store_and_test k db id seed w = record w {
    pool = store_tuple c (at seed) (precompute_block c k db id seed) w.pool;
    storing = w.storing - 1;
    testing = w.testing + 1;
  }

  -- The test of the loop, with room and without.
  unfoldable pub find_room : Worker → Worker
  find_room w = record w { testing = w.testing - 1; storing = w.storing + 1 }

  unfoldable pub find_full : Worker → Worker
  find_full w = record w { testing = w.testing - 1; leaving = w.leaving + 1 }

  -- The end of `precompute`.
  unfoldable pub leave : Worker → Worker
  leave w = record w { leaving = w.leaving - 1; precomputing = false }

  -- The step of one thread. `transfer` runs, in `readHandler`'s threads, when the center server has
  -- been constructed with all its workers.
  pub data Step (k : Crypto) (db : Buffer) (id : ℕ) (w : Worker) : Worker → Type 0 where
    constructs : w.constructed ≡ false → Step k db id w (construct w)
    finds_room : 1 ≤ w.testing → w.pool.available < c.number_seeds → Step k db id w (find_room w)
    finds_full : 1 ≤ w.testing → c.number_seeds ≤ w.pool.available → Step k db id w (find_full w)
    stores : (seed : List ℕ) → 1 ≤ w.storing → Step k db id w (store_and_test k db id seed w)
    leaves : 1 ≤ w.leaving → Step k db id w (leave w)
    sees :
        w.constructed ≡ true
        → w.reader ≡ Reader.waits
        → w.pool.available ≢ 0
        → Step k db id w (record w { reader = Reader.passed })
    takes : w.reader ≡ Reader.passed → Step k db id w (take_and_launch w)

  pub data Reach (k : Crypto) (db : Buffer) (id : ℕ) (w : Worker) : Worker → Type 0 where
    here : Reach k db id w w
    later : {s t : Worker} → Reach k db id w s → Step k db id s t → Reach k db id w t
