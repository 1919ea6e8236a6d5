-- ===== src/Transfers/Careful.antt =====
-- Runs in which the threads of `transfer` do not overlap and every tuple is written before the
-- next is taken.
use cip_pir.Base.{ℕ, ◌+◌, ◌<◌, ◌≤◌, ◌≡◌, arith, refl, ap, List, true, at}
use cip_pir.Base.Memory.{Buffer}
use cip_pir.Config.{Config}
use cip_pir.Server.{Crypto, precompute_block}
use cip_pir.Seeds.Slots.{IsRing}
use cip_pir.Seeds.Queue.{Queue, push, empty_queue, tuple_of}
use cip_pir.Center.Producing.{IsProducing, start_worker-IsProducing}
use cip_pir.Transfers.{Place, Station, Step, start_station}
use cip_pir.Transfers.Flight.{rank, IsCareful, IsSame, Flight, flying}

module _ (c : Config) (k : Crypto) (db : Buffer) (id : ℕ) where
  -- The tuple of a seed.
  abbrev pub made_of : List ℕ → Buffer
  made_of seed = tuple_of c (at seed) (precompute_block c k db id seed)

  -- The tuples that have been stored, after a step.
  abbrev pub logged : {s t : Station} → Step c k db id s t → Queue → Queue
  logged (Step.goes_on i l p a) log = log
  logged (Step.ends i l p a) log = log
  logged (Step.sees i l p a) log = log
  logged (Step.fetches i l p) log = log
  logged (Step.hands_over i l p) log = log
  logged (Step.writes i rest e p) log = log
  logged (Step.switches val sender d e) log = log
  logged (Step.constructs n) log = log
  logged (Step.finds_room h l) log = log
  logged (Step.finds_full h l) log = log
  logged (Step.stores seed h) log = push (made_of seed) log
  logged (Step.leaves h) log = log

  -- A run from the constructor on, with all tuples that were stored in it, in which at every moment
  -- at most one thread of `transfer` has been started and not ended, and a buffer that is still to
  -- be written belongs to a thread before its loop's test or in the wait.
  pub data RunsCarefully (fresh : Buffer) (fresh_seed : ℕ → Buffer) : Queue → Station → Type 0 where
    starts : RunsCarefully fresh fresh_seed empty_queue (start_station c fresh fresh_seed)
    later :
        {log : Queue} {s t : Station}
        → RunsCarefully fresh fresh_seed log s
        → (e : Step c k db id s t) → IsCareful c t
        → RunsCarefully fresh fresh_seed (logged e log) t

  -- A run from the constructor on, with all tuples that were stored in it.
  pub data RunsStoring (fresh : Buffer) (fresh_seed : ℕ → Buffer) : Queue → Station → Type 0 where
    starts : RunsStoring fresh fresh_seed empty_queue (start_station c fresh fresh_seed)
    later :
        {log : Queue} {s t : Station}
        → RunsStoring fresh fresh_seed log s
        → (e : Step c k db id s t) → RunsStoring fresh fresh_seed (logged e log) t

  -- The tuples that were stored are those written, the one in flight, and those in the pool, in
  -- this order; threads of `transfer` have been started only after the constructor.
  pub record IsStation (log : Queue) (s : Station) : Type 0 where
    pub queue : Queue
    pub producing : IsProducing c s.worker queue
    pub flight : Flight c (log.tuple_at s.sent.count) s.sender.started s.threads s.pending
    pub counted : log.count ≡ s.sent.count + flying c flight + queue.count
    pub waits :
        (n : ℕ)
        → n < queue.count
        → IsSame c (queue.tuple_at n) (log.tuple_at (s.sent.count + flying c flight + n))
    pub written : (n : ℕ) → n < s.sent.count → IsSame c (s.sent.tuple_at n) (log.tuple_at n)
    pub ready : 1 ≤ s.sender.started → s.worker.constructed ≡ true
    pub seen : (i : ℕ) → (s.threads i).place ≡ Place.passed → 1 ≤ queue.count
    pub to_come : (i : ℕ) → s.sender.started ≤ i → (s.threads i).place ≡ Place.testing

  module _ (v : IsRing c) where
    pub start_station-IsStation :
        (fresh : Buffer) (fresh_seed : ℕ → Buffer)
        → IsStation empty_queue (start_station c fresh fresh_seed)
    unfolding start_station
    start_station-IsStation fresh fresh_seed = record {
      queue = empty_queue;
      producing = start_worker-IsProducing c v fresh;
      flight = Flight.nothing refl (λ i l. absurd (omega arith));
      counted = omega arith;
      waits = λ n l. absurd (omega arith);
      written = λ n l. absurd (omega arith);
      ready = λ h. absurd (omega arith);
      seen = λ i e. absurd (omega (arith, ap rank e));
      to_come = λ i l. refl;
    }
