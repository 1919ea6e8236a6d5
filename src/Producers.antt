-- ===== src/Producers.antt =====
-- The threads of PeerServer/CIP_pirServer.cpp under USE_CUDA_ON_PEER and PAUSECONDITION 0, which
-- share the pool and the flag `threadTerminated`: any number of threads in `precompute`, one that
-- serves the clients' seeds with `nextSeed`, and calls of `execute`. A step is what a thread does
-- up to the next place where another one can come between. The last statement of `precompute`, a
-- second `mutex.unlock()` by a thread that does not hold the mutex, is undefined: the runs here are
-- those in which no thread has come to it, and a thread that has set the flag stands before it.
pub mod Overrun
pub mod Alone
use cip_pir.Base.{ℕ, ◌+◌, ◌-◌, ◌≤◌, ◌<◌, ◌≡◌, ◌≢◌, List, [], ◌∷◌, Bool, true, false, if◌then◌else◌}
use cip_pir.Base.Memory.{Buffer}
use cip_pir.Config.{Config}
use cip_pir.Server.{Crypto}
use cip_pir.Seeds.{Pool, empty_pool, take_tuple}
use cip_pir.Batch.{seeds_to_compute, fill_batch}

-- How many threads have been started and not yet taken the mutex; how many have set the flag and
-- not yet read `availableSeeds`; the numbers `seedsToCompute` of those that have, in any order; and
-- how many stand behind the part under the mutex and have not set the flag. `passed` says whether
-- the thread in `nextSeed` is behind its wait. `asked` seeds wait for their query, and `executing`
-- calls of `execute` are under way.
pub record Peer : Type 0 where
  pub pool : Pool
  pub terminated : Bool
  pub launched : ℕ
  pub counting : ℕ
  pub waiting : List ℕ
  pub finishing : ℕ
  pub passed : Bool
  pub asked : ℕ
  pub executing : ℕ

-- A list without one of its members.
pub data Without (m : ℕ) : List ℕ → List ℕ → Type 0 where
  first : {l : List ℕ} → Without m (m ∷ l) l
  next : {x : ℕ} {l r : List ℕ} → Without m l r → Without m (x ∷ l) (x ∷ r)

module _ (c : Config) where
  -- The end of the constructor.
  unfoldable pub start_peer : Buffer → Peer
  start_peer fresh = record {
    pool = empty_pool c fresh;
    terminated = true;
    launched = 1;
    counting = 0;
    waiting = [];
    finishing = 0;
    passed = false;
    asked = 0;
    executing = 0;
  }

  -- `precompute` up to the first `mutex.unlock()`.
  unfoldable pub begin : Peer → Peer
  begin w = record w { launched = w.launched - 1; counting = w.counting + 1; terminated = false }

  -- `seedsToCompute = maxSeeds - availableSeeds`, without the mutex.
  unfoldable pub count_seeds : Peer → Peer
  count_seeds w = record w {
    counting = w.counting - 1;
    waiting = seeds_to_compute c w.pool ∷ w.waiting;
  }

  -- The part of `precompute` under its second `mutex.lock()`, for a thread that has read `m`.
  unfoldable pub fill : (Pool → Pool) → List ℕ → Peer → Peer
  fill batch rest w = record w { pool = batch w.pool; waiting = rest; finishing = w.finishing + 1 }

  -- The assignment to `threadTerminated` behind that part.
  pub finish : Peer → Peer
  finish w = record w { finishing = w.finishing - 1; terminated = true }

  -- The locked part of `nextSeed`, with its start of a thread.
  pub take : Peer → Peer
  take w = record w {
    pool = take_tuple c w.pool;
    launched = if w.terminated then w.launched + 1 else w.launched;
    passed = false;
    asked = w.asked + 1;
  }

  -- The start of `execute`: `interrupt` asks the thread to stop at its next interruption point, of
  -- which `precompute` has none.
  pub pause : Peer → Peer
  pause w = record w { terminated = true; asked = w.asked - 1; executing = w.executing + 1 }

  -- The end of `execute`.
  pub restart : Peer → Peer
  restart w = record w {
    launched = if w.terminated then w.launched + 1 else w.launched;
    executing = w.executing - 1;
  }

  pub data Step (k : Crypto) (db : Buffer) (id : ℕ) (w : Peer) : Peer → Type 0 where
    begins : 1 ≤ w.launched → Step k db id w (begin w)
    counts : 1 ≤ w.counting → Step k db id w (count_seeds w)
    fills :
        (m : ℕ) (rest : List ℕ) (seeds : ℕ → List ℕ) (fresh fresh_data : Buffer)
        → Without m w.waiting rest
        → Step k db id w (fill (fill_batch c k db id seeds fresh fresh_data m) rest w)
    finishes : 1 ≤ w.finishing → Step k db id w (finish w)
    sees : w.passed ≡ false → w.pool.available ≢ 0 → Step k db id w (record w { passed = true })
    takes : w.passed ≡ true → Step k db id w (take w)
    pauses : 1 ≤ w.asked → Step k db id w (pause w)
    restarts : 1 ≤ w.executing → Step k db id w (restart w)

  pub data Reach (k : Crypto) (db : Buffer) (id : ℕ) (w : Peer) : Peer → Type 0 where
    here : Reach k db id w w
    later : {s t : Peer} → Reach k db id w s → Step k db id s t → Reach k db id w t
