-- ===== src/Producers/Alone.antt =====
-- What holds of a peer server while its threads in `precompute` do not overlap.
use cip_pir.Base.{ℕ, suc, ◌+◌, ◌≤◌, ◌≡◌, ◌≢◌, List, ◌∷◌, true, false, arith, ap, length}
use cip_pir.Base.Memory.{Buffer}
use cip_pir.Config.{Config}
use cip_pir.Server.{Crypto}
use cip_pir.Seeds.Slots.{IsRing}
use cip_pir.Seeds.Queue.{
  Queue, pop, empty_queue, Represents, empty_pool-Represents, take_tuple-Represents,
}
use cip_pir.Batch.{seeds_to_compute}
use cip_pir.Batch.Fills.{fill_batch-Represents, seeds_to_compute_lem, count-push_all}
use cip_pir.Producers.{
  Peer, Without, Step, start_peer, begin, count_seeds, fill, finish, take, pause, restart,
}

-- The threads that will still write to the pool.
abbrev pub producers : Peer → ℕ
producers w = w.launched + w.counting + length w.waiting

length-Without : {m : ℕ} {l r : List ℕ} → Without m l r → length l ≡ suc (length r)
length-Without Without.first = omega arith
length-Without (Without.next w) = ap suc (length-Without w)

false-true : false ≢ true
false-true e = ground arith

module _ (c : Config) (k : Crypto) (db : Buffer) (id : ℕ) where
  -- A run from the constructor on, through states with at most one such thread. As in every run
  -- of these steps, no thread has come to the second `mutex.unlock()` of `precompute`.
  pub data RunsAlone (fresh : Buffer) : Peer → Type 0 where
    starts : RunsAlone fresh (start_peer c fresh)
    later :
        {s t : Peer} → RunsAlone fresh s → Step c k db id s t → producers t ≤ 1 → RunsAlone fresh t

  -- The pool holds a queue; a thread that has read `availableSeeds` has room for its tuples; and
  -- one that goes to take has a tuple.
  pub record IsPeer (w : Peer) : Type 0 where
    pub queue : Queue
    pub holds : Represents c w.pool queue
    pub room : (m : ℕ) (rest : List ℕ) → Without m w.waiting rest → queue.count + m ≤ c.number_seeds
    pub seen : w.passed ≡ true → 1 ≤ queue.count

  module _ (v : IsRing c) where
    -- The number that a thread reads is the room that is left.
    counted :
        (w : Peer) (q : Queue)
        → Represents c w.pool q
        → (m : ℕ) (rest : List ℕ) → length w.waiting ≡ 0
        → Without m (seeds_to_compute c w.pool ∷ w.waiting) rest
        → q.count + m ≤ c.number_seeds
    counted w q r m rest e Without.first =
        omega (arith, seeds_to_compute_lem c v w.pool q r, r.bounded)
    counted w q r m rest e (Without.next o) = absurd (omega (arith, length-Without o))

    Step-IsPeer :
        {s t : Peer} → IsPeer s → producers s ≤ 1 → Step c k db id s t → producers t ≤ 1 → IsPeer t
    unfolding begin count_seeds fill finish take pause restart
    Step-IsPeer i one (Step.begins h) alone = record {
      queue = i.queue;
      holds = i.holds;
      room = i.room;
      seen = i.seen;
    }
    Step-IsPeer {s} i one (Step.counts h) alone = record {
      queue = i.queue;
      holds = i.holds;
      room = λ m rest o. counted s i.queue i.holds m rest (omega arith) o;
      seen = i.seen;
    }
    Step-IsPeer {s} i one (Step.fills m rest seeds fresh fresh_data o) alone = record {
      queue = _;
      holds =
          fill_batch-Represents c v k db id seeds fresh fresh_data m s.pool i.queue i.holds
            (i.room m rest o);
      room = λ m' rest' o'. absurd (omega (arith, length-Without o, length-Without o'));
      seen = λ e. omega (arith, count-push_all _ m 0 i.queue, i.seen e);
    }
    Step-IsPeer i one (Step.finishes h) alone = record {
      queue = i.queue;
      holds = i.holds;
      room = i.room;
      seen = i.seen;
    }
    Step-IsPeer i one (Step.sees p a) alone = record {
      queue = i.queue;
      holds = i.holds;
      room = i.room;
      seen = λ e. omega (arith, a, i.holds.counted);
    }
    Step-IsPeer {s} i one (Step.takes p) alone = record {
      queue = pop i.queue;
      holds = take_tuple-Represents c v s.pool i.queue i.holds (i.seen p);
      room = λ m rest o. omega (arith, i.room m rest o);
      seen = λ e. absurd (false-true e);
    }
    Step-IsPeer i one (Step.pauses h) alone = record {
      queue = i.queue;
      holds = i.holds;
      room = i.room;
      seen = i.seen;
    }
    Step-IsPeer i one (Step.restarts h) alone = record {
      queue = i.queue;
      holds = i.holds;
      room = i.room;
      seen = i.seen;
    }

    alone_now : {fresh : Buffer} {w : Peer} → RunsAlone fresh w → producers w ≤ 1
    unfolding start_peer
    alone_now RunsAlone.starts = omega arith
    alone_now (RunsAlone.later r s h) = h

    -- In a run from the constructor on in which no thread has come to the second `mutex.unlock()`
    -- of `precompute`, and at every moment at most one thread is started, in the first two parts of
    -- `precompute`, or about to write: the pool holds a queue of at most `maxSeeds` tuples, a
    -- thread that has read `availableSeeds` finds room for all its tuples, and `nextSeed` does not
    -- take from an empty pool.
    pub RunsAlone-IsPeer : {fresh : Buffer} {w : Peer} → RunsAlone fresh w → IsPeer w
    unfolding start_peer
    RunsAlone-IsPeer {fresh} RunsAlone.starts = record {
      queue = empty_queue;
      holds = empty_pool-Represents c v fresh;
      room = λ m rest o. absurd (omega (arith, length-Without o));
      seen = λ e. absurd (false-true e);
    }
    RunsAlone-IsPeer (RunsAlone.later r s h) = Step-IsPeer (RunsAlone-IsPeer r) (alone_now r) s h
