-- ===== src/Center/Producing.antt =====
-- What a worker's threads in `precompute` and the locked part of `nextSeed` do to the pool.
use cip_pir.Base.{ℕ, ◌+◌, ◌≤◌, ◌<◌, ◌≡◌, ◌≢◌, List, true, false, refl, arith, at}
use cip_pir.Base.Memory.{Buffer}
use cip_pir.Config.{Config}
use cip_pir.Server.{Crypto, precompute_block}
use cip_pir.Seeds.Slots.{IsRing}
use cip_pir.Seeds.Queue.{
  Queue, push, pop, empty_queue, tuple_of, Represents, empty_pool-Represents,
  store_tuple-Represents, take_tuple-Represents,
}
use cip_pir.Center.{
  Worker, start_worker, construct, take_and_launch, store_and_test, find_room, find_full, leave,
}

false-true : false ≢ true
false-true e = ground arith

module _ (c : Config) where
  -- The pool holds the queue `q`; at most one thread precomputes, and from the end of
  -- the constructor on the flag is set while it does; a thread that goes to store has a free slot.
  pub record IsProducing (w : Worker) (q : Queue) : Type 0 where
    pub holds : Represents c w.pool q
    pub one_producer : w.testing + w.storing + w.leaving ≤ 1
    pub flagged :
        1 ≤ w.testing + w.storing + w.leaving → w.constructed ≡ true → w.precomputing ≡ true
    pub room : 1 ≤ w.storing → q.count < c.number_seeds

  pub start_worker-IsProducing :
      IsRing c → (fresh : Buffer) → IsProducing (start_worker c fresh) empty_queue
  unfolding start_worker
  start_worker-IsProducing v fresh = record {
    holds = empty_pool-Represents c v fresh;
    one_producer = omega arith;
    flagged = λ h e. absurd (false-true e);
    room = λ h. absurd (omega arith);
  }

  module _ (w : Worker) (q : Queue) (i : IsProducing w q) where
    pub construct-IsProducing : IsProducing (construct c w) q
    unfolding construct
    construct-IsProducing = record {
      holds = i.holds;
      one_producer = i.one_producer;
      flagged = λ p e. refl;
      room = i.room;
    }

    pub find_room-IsProducing :
        1 ≤ w.testing → w.pool.available < c.number_seeds → IsProducing (find_room c w) q
    unfolding find_room
    find_room-IsProducing h l = record {
      holds = i.holds;
      one_producer = omega (arith, i.one_producer);
      flagged = λ p e. i.flagged (omega arith) e;
      room = λ p. omega (arith, i.holds.counted);
    }

    pub find_full-IsProducing : 1 ≤ w.testing → IsProducing (find_full c w) q
    unfolding find_full
    find_full-IsProducing h = record {
      holds = i.holds;
      one_producer = omega (arith, i.one_producer);
      flagged = λ p e. i.flagged (omega arith) e;
      room = i.room;
    }

    pub leave-IsProducing : 1 ≤ w.leaving → IsProducing (leave c w) q
    unfolding leave
    leave-IsProducing h = record {
      holds = i.holds;
      one_producer = omega (arith, i.one_producer);
      flagged = λ p e. absurd (omega (arith, i.one_producer));
      room = i.room;
    }

    pub store_and_test-IsProducing :
        IsRing c
        → (k : Crypto) (db : Buffer) (id : ℕ) (seed : List ℕ) → 1 ≤ w.storing
        → IsProducing
            (store_and_test c k db id seed w)
            (push (tuple_of c (at seed) (precompute_block c k db id seed)) q)
    unfolding store_and_test
    store_and_test-IsProducing v k db id seed h = record {
      holds =
          store_tuple-Represents c v w.pool q i.holds (at seed) (precompute_block c k db id seed)
            (i.room h);
      one_producer = omega (arith, i.one_producer);
      flagged = λ p e. i.flagged (omega arith) e;
      room = λ p. absurd (omega (arith, i.one_producer));
    }

    pub take_and_launch-IsProducing :
        IsRing c → 1 ≤ q.count → w.constructed ≡ true → IsProducing (take_and_launch c w) (pop q)
    unfolding take_and_launch
    take_and_launch-IsProducing v some_tuple done = record {
      holds = take_tuple-Represents c v w.pool q i.holds some_tuple;
      one_producer = ground (arith, i.one_producer, i.flagged, done);
      flagged = ground (arith, i.flagged, done);
      room = λ h. omega (arith, i.room h);
    }
