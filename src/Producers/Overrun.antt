-- ===== src/Producers/Overrun.antt =====
-- A schedule in which the pool of a peer server takes more tuples than it has slots: `execute` sets
-- `threadTerminated` and starts a thread while another one has read `availableSeeds`.
use cip_pir.Base.{ℕ, ◌+◌, ◌-◌, ◌^◌, ◌<◌, ◌≡◌, [], ◌∷◌, true, refl, arith, ap, ◌∙◌, u32}
use native.Mathlib.Nat.{mod-eq_of_lt}
use cip_pir.Base.Memory.{Buffer}
use cip_pir.Base.Slots.{times_le}
use cip_pir.Config.{Config}
use cip_pir.Server.{Crypto}
use cip_pir.Seeds.{Pool, empty_pool, take_tuple}
use cip_pir.Seeds.Slots.{IsRing, tuple_size}
use cip_pir.Seeds.Queue.{
  Queue, pop, empty_queue, Represents, empty_pool-Represents, take_tuple-Represents,
}
use cip_pir.Batch.{seeds_to_compute, fill_batch}
use cip_pir.Batch.Fills.{
  fill_batch-Represents, fill_batch-one, seeds_to_compute_lem, count-push_all,
}
use cip_pir.Producers.{
  Peer, Without, Step, Reach, start_peer, begin, count_seeds, fill, finish, take, pause, restart,
}

module _ (c : Config) (k : Crypto) (db : Buffer) (id : ℕ) (v : IsRing c) (fresh : Buffer) where
  -- The seeds and the fresh memory do not matter.
  abbrev batch : ℕ → Pool → Pool
  batch m = fill_batch c k db id (λ i. []) fresh fresh m

  abbrev full : Pool
  full = batch (seeds_to_compute c (empty_pool c fresh)) (empty_pool c fresh)

  abbrev one_free : Pool
  one_free = take_tuple c full

  abbrev full_again : Pool
  full_again = batch (seeds_to_compute c one_free) one_free

  full-Represents : (q : Queue) × (q.count ≡ c.number_seeds) × Represents c full q
  full-Represents =
      let r = empty_pool-Represents c v fresh in
      let m = seeds_to_compute_lem c v (empty_pool c fresh) empty_queue r in
      (
        _,
        count-push_all _ (seeds_to_compute c (empty_pool c fresh)) 0 empty_queue ∙ omega (arith, m),
        fill_batch-Represents c v k db id (λ i. []) fresh fresh
            (seeds_to_compute c (empty_pool c fresh)) (empty_pool c fresh) empty_queue r
            (omega (arith, m)),
      )

  one_free-Represents : (q : Queue) × (q.count ≡ c.number_seeds - 1) × Represents c one_free q
  one_free-Represents =
      let (q, e, r) = full-Represents in
      (pop q, omega (arith, e), take_tuple-Represents c v full q r (omega (arith, e, v.some_slot)))

  one_to_compute : seeds_to_compute c one_free ≡ 1
  one_to_compute =
      let (q, e, r) = one_free-Represents in
      omega (arith, e, v.some_slot, seeds_to_compute_lem c v one_free q r)

  full_again-available : full_again.available ≡ c.number_seeds
  full_again-available =
      let (q, e, r) = one_free-Represents in
      let small = times_le c.number_seeds (tuple_size c) v.some_byte in
      ap (λ m. (batch m one_free).available) one_to_compute
      ∙ fill_batch-one c k db id (λ i. []) fresh fresh one_free
      ∙ omega (arith, e, r.counted, v.some_slot, v.small_ring, small)

  overrun-available :
      (batch (seeds_to_compute c one_free) full_again).available ≡ u32 (c.number_seeds + 1)
  overrun-available =
      ap (λ m. (batch m full_again).available) one_to_compute
      ∙ fill_batch-one c k db id (λ i. []) fresh fresh full_again
      ∙ ap (λ a. u32 (a + 1)) full_again-available

  abbrev m : ℕ
  m = seeds_to_compute c one_free

  abbrev filled_peer : Peer
  filled_peer =
      fill c (batch (seeds_to_compute c (empty_pool c fresh))) []
        (count_seeds c (begin c (start_peer c fresh)))

  Reach-filled_peer : Reach c k db id (start_peer c fresh) filled_peer
  unfolding start_peer begin count_seeds fill
  Reach-filled_peer =
      Reach.later
        (Reach.later (Reach.later Reach.here (Step.begins (omega arith)))
          (Step.counts (omega arith)))
        (Step.fills (seeds_to_compute c (empty_pool c fresh)) [] (λ i. []) fresh fresh
          Without.first)

  -- A tuple is taken, which starts a thread, and that thread reads `availableSeeds`.
  abbrev taken_peer : Peer
  taken_peer = count_seeds c (begin c (take c (record (finish c filled_peer) { passed = true })))

  Reach-taken_peer : Reach c k db id (start_peer c fresh) taken_peer
  unfolding start_peer begin count_seeds fill finish take
  Reach-taken_peer =
      let (q, e, r) = full-Represents in
      Reach.later
        (Reach.later
          (Reach.later
            (Reach.later (Reach.later Reach-filled_peer (Step.finishes (omega arith)))
              (Step.sees refl (λ z. omega (arith, z, e, r.counted, v.some_slot))))
            (Step.takes refl))
          (Step.begins (omega arith)))
        (Step.counts (omega arith))

  -- `execute` starts a second one, which reads the same number.
  abbrev twice_peer : Peer
  twice_peer = count_seeds c (begin c (restart c (pause c taken_peer)))

  Reach-twice_peer : Reach c k db id (start_peer c fresh) twice_peer
  unfolding start_peer begin count_seeds fill finish take pause restart
  Reach-twice_peer =
      Reach.later
        (Reach.later
          (Reach.later (Reach.later Reach-taken_peer (Step.pauses (omega arith)))
            (Step.restarts (omega arith)))
          (Step.begins (omega arith)))
        (Step.counts (omega arith))

  abbrev overrun_peer : Peer
  overrun_peer = fill c (batch m) [] (fill c (batch m) (m ∷ []) twice_peer)

  Reach-overrun_peer : Reach c k db id (start_peer c fresh) overrun_peer
  unfolding start_peer begin count_seeds fill finish take pause restart
  Reach-overrun_peer =
      Reach.later
        (Reach.later Reach-twice_peer (Step.fills m (m ∷ []) (λ i. []) fresh fresh Without.first))
        (Step.fills m [] (λ i. []) fresh fresh Without.first)

  -- With fewer than 2^32 - 1 slots, a schedule leads from the constructor of a peer server to a
  -- state in which `availableSeeds` is `maxSeeds + 1`.
  pub peer_can_overrun :
      c.number_seeds + 1 < 2 ^ 32
      → (w : Peer) × Reach c k db id (start_peer c fresh) w
        × (w.pool.available ≡ c.number_seeds + 1)
  unfolding start_peer begin count_seeds fill finish take pause restart
  peer_can_overrun few = (overrun_peer, Reach-overrun_peer, overrun-available ∙ mod-eq_of_lt few)
