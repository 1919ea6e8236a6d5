-- ===== src/Transfers.antt =====
-- CenterServer/RAID_pirCenterWorker.cpp: the threads that send a worker's tuples to its peer
-- server. Each runs `transfer` with a buffer of its own, and `setActive` starts them. They
-- interleave with one another, with the threads of `precompute` and with the writes of the network
-- library.
pub mod Flight
pub mod Careful
pub mod Steps
pub mod Sends
pub mod Order
pub mod Races
use cip_pir.Base.{ℕ, ◌+◌, ◌<◌, ◌≡◌, ◌≢◌, ◌≤◌, List, [], ◌∷◌, ◌++◌, Bool, true, false, some}
use cip_pir.Base.{if◌then◌else◌, ◌==◌, at}
use cip_pir.Base.Memory.{Buffer}
use cip_pir.Config.{Config}
use cip_pir.Server.{Crypto, precompute_block}
use cip_pir.Seeds.{copied_tuple}
use cip_pir.Seeds.Queue.{Queue, empty_queue, push}
use cip_pir.Center.{
  Worker, start_worker, construct, find_room, find_full, store_and_test, leave, take_and_launch,
}
use cip_pir.Control.{Sender, fresh_sender, set_active}

-- Where a thread stands: before the test of the loop in `transfer`, in the wait of `nextSeed`,
-- behind that wait and before the lock, before `sendTuple`, or behind the loop.
pub data Place : Type 0 where
  testing waiting passed sending ended : Place

-- A thread: its place, and its buffer `seed`.
pub record Transfer : Type 0 where
  pub place : Place
  pub seed : Buffer

-- A worker, whose field `reader` stands for none of the threads here; its flag and the number of
-- threads started; the threads, of which those behind that number are still to come; the threads
-- whose buffers have been handed to `async_write` and not yet been written, in order; and the
-- tuples that have been written.
pub record Station : Type 0 where
  pub worker : Worker
  pub sender : Sender
  pub threads : ℕ → Transfer
  pub pending : List ℕ
  pub sent : Queue

module _ (c : Config) where
  -- The constructor up to the start of the first thread. A thread that is to come stands before its
  -- loop, its buffer as `malloc` gives.
  unfoldable pub start_station : Buffer → (ℕ → Buffer) → Station
  start_station fresh fresh_seed = record {
    worker = start_worker c fresh;
    sender = fresh_sender;
    threads = λ i. record { place = Place.testing; seed = fresh_seed i };
    pending = [];
    sent = empty_queue;
  }

  abbrev pub set_thread : ℕ → Transfer → (ℕ → Transfer) → ℕ → Transfer
  set_thread i t threads j = if j == i then t else threads j

  -- A thread goes to another place.
  unfoldable pub move : ℕ → Place → Station → Station
  move i place s = record s {
    threads = set_thread i (record { place = place; seed = (s.threads i).seed }) s.threads;
  }

  -- The locked part of `nextSeed`, which copies the tuple to the thread's buffer.
  unfoldable pub fetch : ℕ → Station → Station
  fetch i s = record s {
    worker = take_and_launch c s.worker;
    threads =
        set_thread i
          (record { place = Place.sending; seed = copied_tuple c (s.threads i).seed s.worker.pool })
          s.threads;
  }

  -- `sendTuple`: `async_write` keeps a reference to the buffer and returns.
  unfoldable pub hand_over : ℕ → Station → Station
  hand_over i s = record s {
    threads = set_thread i (record { place = Place.testing; seed = (s.threads i).seed }) s.threads;
    pending = s.pending ++ (i ∷ []);
  }

  -- The network library writes the first buffer that it was given, as it is now.
  unfoldable pub write : ℕ → List ℕ → Station → Station
  write i rest s = record s { pending = rest; sent = push (s.threads i).seed s.sent }

  -- `setActive`. Its `interrupt` asks a thread to stop at its next interruption point, of which
  -- `transfer` has none: `sleep_for` is that of the standard library.
  unfoldable pub switch : Sender → Station → Station
  switch sender s = record s { sender = sender }

  -- A step of a thread of `precompute`, or the end of the constructor.
  unfoldable pub produce : (Worker → Worker) → Station → Station
  produce f s = record s { worker = f s.worker }

  -- The step of one thread, of the network library or of `readHandler`. A write from a buffer that
  -- has been freed is no step.
  pub data Step (k : Crypto) (db : Buffer) (id : ℕ) (s : Station) : Station → Type 0 where
    goes_on :
        (i : ℕ)
        → i < s.sender.started
        → (s.threads i).place ≡ Place.testing
        → s.sender.active ≡ true
        → Step k db id s (move i Place.waiting s)
    ends :
        (i : ℕ)
        → i < s.sender.started
        → (s.threads i).place ≡ Place.testing
        → s.sender.active ≡ false
        → Step k db id s (move i Place.ended s)
    sees :
        (i : ℕ)
        → i < s.sender.started
        → (s.threads i).place ≡ Place.waiting
        → s.worker.pool.available ≢ 0
        → Step k db id s (move i Place.passed s)
    fetches :
        (i : ℕ)
        → i < s.sender.started
        → (s.threads i).place ≡ Place.passed
        → Step k db id s (fetch i s)
    hands_over :
        (i : ℕ)
        → i < s.sender.started
        → (s.threads i).place ≡ Place.sending
        → Step k db id s (hand_over i s)
    writes :
        (i : ℕ) (rest : List ℕ)
        → s.pending ≡ i ∷ rest
        → (s.threads i).place ≢ Place.ended
        → Step k db id s (write i rest s)
    switches :
        (val : Bool) (sender : Sender)
        → s.worker.constructed ≡ true
        → set_active val s.sender ≡ some sender
        → Step k db id s (switch sender s)
    constructs : s.worker.constructed ≡ false → Step k db id s (produce (construct c) s)
    finds_room :
        1 ≤ s.worker.testing
        → s.worker.pool.available < c.number_seeds
        → Step k db id s (produce (find_room c) s)
    finds_full :
        1 ≤ s.worker.testing
        → c.number_seeds ≤ s.worker.pool.available
        → Step k db id s (produce (find_full c) s)
    stores :
        (seed : List ℕ)
        → 1 ≤ s.worker.storing
        → Step k db id s (produce (store_and_test c k db id seed) s)
    leaves : 1 ≤ s.worker.leaving → Step k db id s (produce (leave c) s)

  pub data Reach (k : Crypto) (db : Buffer) (id : ℕ) (s : Station) : Station → Type 0 where
    here : Reach k db id s s
    later : {t u : Station} → Reach k db id s t → Step k db id t u → Reach k db id s u
