-- ===== src/Center/Invariant.antt =====
-- What holds of a worker of the center server at every moment.
use cip_pir.Base.{ℕ, suc, ◌+◌, ◌≤◌, ◌<◌, ◌≡◌, ◌≢◌, List, true, refl, arith}
use cip_pir.Base.{at, ap, ◌∙◌, ℕ_discrete}
use cip_pir.Base.Memory.{Buffer}
use cip_pir.Config.{Config}
use cip_pir.Server.{Crypto, precompute_block}
use cip_pir.Seeds.Slots.{IsRing, tuple_size}
use cip_pir.Seeds.Queue.{Queue, push, pop, empty_queue, tuple_of, push_here, push_before}
use cip_pir.Center.Producing.{
  IsProducing, start_worker-IsProducing, find_room-IsProducing, find_full-IsProducing,
  construct-IsProducing, leave-IsProducing, store_and_test-IsProducing, take_and_launch-IsProducing,
}
use cip_pir.Center.{
  Worker, Reader, Step, Reach, start_worker, construct, take_and_launch, store_and_test, find_room,
  find_full, leave,
}

pub waits-passed : Reader.waits ≢ Reader.passed
waits-passed e = ground arith

module _ (c : Config) (k : Crypto) (db : Buffer) (id : ℕ) where
  -- A tuple that `precompute` made: a seed, and the block of that seed.
  abbrev pub IsMade : Buffer → Type 0
  IsMade t =
      (seed : List ℕ) × ((j : ℕ)
        → j < tuple_size c
        → t j ≡ tuple_of c (at seed) (precompute_block c k db id seed) j)

  -- The pool holds a queue of tuples that were made for this worker; at most one thread
  -- precomputes, and from the end of the constructor on the flag is set while it does; a thread
  -- that goes to store has a free slot, and one that goes to take has a tuple.
  pub record IsWorker (w : Worker) : Type 0 where
    pub queue : Queue
    pub producing : IsProducing c w queue
    pub ready : w.reader ≡ Reader.passed → w.constructed ≡ true
    pub seen : w.reader ≡ Reader.passed → 1 ≤ queue.count
    pub made : (n : ℕ) → n < queue.count → IsMade (queue.tuple_at n)

  module _ (v : IsRing c) where
    start_worker-IsWorker : (fresh : Buffer) → IsWorker (start_worker c fresh)
    unfolding start_worker
    start_worker-IsWorker fresh = record {
      queue = empty_queue;
      producing = start_worker-IsProducing c v fresh;
      ready = λ e. absurd (waits-passed e);
      seen = λ e. absurd (waits-passed e);
      made = λ n h. absurd (omega arith);
    }

    module _ (w : Worker) (i : IsWorker w) where
      -- A step that leaves the queue and the reader as they are.
      same_queue :
          (t : Worker)
          → (t.reader ≡ Reader.passed → w.reader ≡ Reader.passed)
          → (w.constructed ≡ true → t.constructed ≡ true)
          → IsProducing c t i.queue
          → IsWorker t
      same_queue t back still p = record {
        queue = i.queue;
        producing = p;
        ready = λ e. still (i.ready (back e));
        seen = λ e. i.seen (back e);
        made = i.made;
      }

      IsMade-push :
          (seed : List ℕ) (n : ℕ)
          → n < i.queue.count + 1
          → IsMade
              ((push (tuple_of c (at seed) (precompute_block c k db id seed)) i.queue).tuple_at n)
      IsMade-push seed n l = elim (ℕ_discrete n i.queue.count) [
        | yes e ↦ (seed, λ j h. ap (λ f. f j) (push_here _ i.queue n e))
        | no ne ↦ (
          (i.made n (omega arith)).0,
          λ j h.
              ap (λ f. f j)
                (push_before (tuple_of c (at seed) (precompute_block c k db id seed)) i.queue n ne)
              ∙ (i.made n (omega arith)).1 j h,
        )
      ]

      store_and_test-IsWorker :
          (seed : List ℕ) → 1 ≤ w.storing → IsWorker (store_and_test c k db id seed w)
      unfolding store_and_test
      store_and_test-IsWorker seed h = record {
        queue = push (tuple_of c (at seed) (precompute_block c k db id seed)) i.queue;
        producing = store_and_test-IsProducing c w i.queue i.producing v k db id seed h;
        ready = i.ready;
        seen = λ e. omega (arith, i.seen e);
        made = IsMade-push seed;
      }

      take_and_launch-IsWorker : w.reader ≡ Reader.passed → IsWorker (take_and_launch c w)
      unfolding take_and_launch
      take_and_launch-IsWorker e = record {
        queue = pop i.queue;
        producing = take_and_launch-IsProducing c w i.queue i.producing v (i.seen e) (i.ready e);
        ready = λ e. absurd (waits-passed e);
        seen = λ e. absurd (waits-passed e);
        made = λ n l. i.made (suc n) (omega arith);
      }

      Step-IsWorker : {t : Worker} → Step c k db id w t → IsWorker t
      unfolding construct find_room find_full leave
      Step-IsWorker (Step.constructs n) =
          same_queue _ (λ e. e) (λ e. refl) (construct-IsProducing c w i.queue i.producing)
      Step-IsWorker (Step.finds_room h l) =
          same_queue _ (λ e. e) (λ e. e) (find_room-IsProducing c w i.queue i.producing h l)
      Step-IsWorker (Step.finds_full h l) =
          same_queue _ (λ e. e) (λ e. e) (find_full-IsProducing c w i.queue i.producing h)
      Step-IsWorker (Step.stores seed h) = store_and_test-IsWorker seed h
      Step-IsWorker (Step.leaves h) =
          same_queue _ (λ e. e) (λ e. e) (leave-IsProducing c w i.queue i.producing h)
      Step-IsWorker (Step.sees d e n) = record {
        queue = i.queue;
        producing = record {
          holds = i.producing.holds;
          one_producer = i.producing.one_producer;
          flagged = i.producing.flagged;
          room = i.producing.room;
        };
        ready = λ p. d;
        seen = λ p. omega (arith, n, i.producing.holds.counted);
        made = i.made;
      }
      Step-IsWorker (Step.takes e) = take_and_launch-IsWorker e

    pub Reach-IsWorker :
        (fresh : Buffer) {t : Worker} → Reach c k db id (start_worker c fresh) t → IsWorker t
    Reach-IsWorker fresh Reach.here = start_worker-IsWorker fresh
    Reach-IsWorker fresh (Reach.later r s) = Step-IsWorker _ (Reach-IsWorker fresh r) s
