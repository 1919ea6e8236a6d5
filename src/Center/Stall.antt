-- ===== src/Center/Stall.antt =====
-- A schedule in which a worker of the center server stops for good: the thread that precomputes
-- has left its loop and not yet cleared `precomputing` when `transfer` takes the whole pool.
use cip_pir.Base.{ℕ, zero, suc, ◌≤◌, ◌≡◌, [], true, refl, arith}
use cip_pir.Base.{at, sym, ◌∙◌}
use cip_pir.Base.Memory.{Buffer}
use cip_pir.Config.{Config}
use cip_pir.Lookup.Search.{true-false}
use cip_pir.Server.{Crypto, precompute_block}
use cip_pir.Seeds.Queue.{empty_pool-Represents, store_tuple-Represents, take_tuple-Represents}
use cip_pir.Seeds.Slots.{IsRing}
use cip_pir.Center.{
  Worker, Reader, Step, Reach, start_worker, construct, take_and_launch, store_and_test, find_room,
  find_full, leave,
}
use cip_pir.Center.Invariant.{IsWorker, Reach-IsWorker, waits-passed}

module _ (c : Config) (k : Crypto) (db : Buffer) (id : ℕ) (v : IsRing c) (fresh : Buffer) where
  abbrev FromStart : Worker → Type 0
  FromStart t = Reach c k db id (start_worker c fresh) t

  -- No thread can make a step.
  abbrev pub IsStuck : Worker → Type 0
  IsStuck t = (u : Worker) → ¬ Step c k db id t u

  abbrev StallsLater : Type 0
  StallsLater = (t : Worker) × FromStart t × IsStuck t

  left-IsStuck :
      (w : Worker)
      → IsWorker c k db id w
      → 1 ≤ w.leaving
      → w.constructed ≡ true
      → w.reader ≡ Reader.waits
      → w.pool.available ≡ 0
      → IsStuck (leave c w)
  unfolding leave
  left-IsStuck w i h d e a u (Step.constructs n) = true-false (sym d ∙ n)
  left-IsStuck w i h d e a u (Step.finds_room p l) =
      absurd (omega (arith, i.producing.one_producer))
  left-IsStuck w i h d e a u (Step.finds_full p l) =
      absurd (omega (arith, i.producing.one_producer))
  left-IsStuck w i h d e a u (Step.stores seed p) = absurd (omega (arith, i.producing.one_producer))
  left-IsStuck w i h d e a u (Step.leaves p) = absurd (omega (arith, i.producing.one_producer))
  left-IsStuck w i h d e a u (Step.sees d' p n) = n a
  left-IsStuck w i h d e a u (Step.takes p) = waits-passed (sym e ∙ p)

  abbrev seen_by_reader : Worker → Worker
  seen_by_reader w = record w { reader = Reader.passed }

  drained :
      (n : ℕ) (w : Worker)
      → FromStart w
      → 1 ≤ w.leaving
      → w.constructed ≡ true
      → w.reader ≡ Reader.waits
      → w.pool.available ≡ n
      → StallsLater
  unfolding take_and_launch
  drained zero w r h d e a = (
    leave c w,
    Reach.later r (Step.leaves h),
    left-IsStuck w (Reach-IsWorker c k db id v fresh r) h d e a,
  )
  drained (suc n) w r h d e a =
      let i = Reach-IsWorker c k db id v fresh r in
      let seen = Reach.later r (Step.sees d e (λ z. omega (arith, a, z))) in
      let taken =
        take_tuple-Represents c v w.pool i.queue i.producing.holds
          (omega (arith, a, i.producing.holds.counted)) in
      drained n (take_and_launch c (seen_by_reader w)) (Reach.later seen (Step.takes refl)) h d refl
        (omega (arith, taken.counted, i.producing.holds.counted, a))

  filled :
      (m : ℕ)
      → m ≤ c.number_seeds
      → (w : Worker) × FromStart w
        × (w.testing ≡ 1)
        × (w.constructed ≡ true)
        × (w.reader ≡ Reader.waits)
        × (w.pool.available ≡ m)
  unfolding start_worker construct find_room store_and_test
  filled zero h = (
    construct c (start_worker c fresh),
    Reach.later Reach.here (Step.constructs refl),
    refl,
    refl,
    refl,
    (empty_pool-Represents c v fresh).counted,
  )
  filled (suc m) h =
      let f = filled m (omega arith) in
      let w = f.0 in
      let i = Reach-IsWorker c k db id v fresh f.1 in
      let room = Reach.later f.1 (Step.finds_room (omega (arith, f.2)) (omega (arith, f.5))) in
      let stored =
        store_tuple-Represents c v w.pool i.queue i.producing.holds (at [])
          (precompute_block c k db id []) (omega (arith, i.producing.holds.counted, f.5)) in
      (
        store_and_test c k db id [] (find_room c w),
        Reach.later room (Step.stores [] (omega (arith, f.2))),
        omega (arith, f.2),
        f.3,
        f.4,
        omega (arith, stored.counted, i.producing.holds.counted, f.5),
      )

  -- From the start of the worker's first thread on, a schedule leads to a worker in which no thread
  -- can make a step.
  pub worker_can_stall : (t : Worker) × FromStart t × IsStuck t
  unfolding find_full
  worker_can_stall =
      let f = filled c.number_seeds (omega arith) in
      drained c.number_seeds (find_full c f.0)
        (Reach.later f.1 (Step.finds_full (omega (arith, f.2)) (omega (arith, f.5)))) (omega arith)
        f.3 f.4 f.5
