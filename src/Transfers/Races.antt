-- ===== src/Transfers/Races.antt =====
-- Schedules in which the threads of `transfer` send what they should not.
use cip_pir.Base.{
  ℕ, ◌-◌, ◌<◌, ◌≤◌, ◌≡◌, ◌^◌, arith, refl, ap, ◌∙◌, List, [], Bool, true, false, at, if◌then◌else◌,
  ◌==◌,
}
use cip_pir.Base.Memory.{Buffer}
use cip_pir.Config.{Config}
use cip_pir.Server.{Crypto, precompute_block}
use cip_pir.Seeds.{empty_pool, store_tuple, take_tuple, copied_tuple}
use cip_pir.Seeds.Slots.{IsRing}
use cip_pir.Seeds.Queue.{
  push, pop, empty_queue, Represents, empty_pool-Represents, store_tuple-Represents,
  take_tuple-Represents, copied_tuple-first,
}
use cip_pir.Center.{start_worker, construct, find_room, store_and_test, take_and_launch}
use cip_pir.Control.{Sender, set_active}
use cip_pir.Transfers.{
  Station, Step, Reach, start_station, move, fetch, hand_over, write, switch, produce,
}
use cip_pir.Transfers.Flight.{rank, IsSame}
use cip_pir.Transfers.Careful.{made_of, RunsStoring}

abbrev sender : Bool → ℕ → Sender
sender active started = record { active = active; started = started }

both_pushed :
    (t u : Buffer) (n : ℕ)
    → n < 2
    → (push t (record { count = 1; tuple_at = λ k. if k == 0 then t else u })).tuple_at n ≡ t
both_pushed t u n h = ground arith

module _ (c : Config) (k : Crypto) (db : Buffer) (id : ℕ) (v : IsRing c) (fresh : Buffer)
    (fresh_seed : ℕ → Buffer) where
  abbrev From : Station → Type 0
  From t = Reach c k db id (start_station c fresh fresh_seed) t

  -- A worker with one tuple.
  one_stored : List ℕ → Station
  one_stored x =
      produce c (store_and_test c k db id x)
        (produce c (find_room c) (produce c (construct c) (start_station c fresh fresh_seed)))

  one_stored-Reach : (x : List ℕ) → From (one_stored x)
  unfolding one_stored produce start_station start_worker construct find_room empty_pool
  one_stored-Reach x =
      Reach.later
        (Reach.later (Reach.later Reach.here (Step.constructs refl))
          (Step.finds_room (omega arith) (omega (arith, v.some_slot))))
        (Step.stores x (omega arith))

  -- From the constructor on, a schedule with two threads of `transfer` takes more tuples than were
  -- stored, and `availableSeeds` is `2 ^ 32 - 1`.
  pub transfers_underflow : (t : Station) × From t × (t.worker.pool.available ≡ 2 ^ 32 - 1)
  unfolding one_stored produce start_station start_worker construct find_room store_and_test switch
      move set_active empty_pool store_tuple fetch take_and_launch take_tuple
  transfers_underflow =
      let r = one_stored-Reach [] in
      let r = Reach.later r (Step.switches true (sender true 1) refl refl) in
      let r = Reach.later r (Step.switches false (sender false 1) refl refl) in
      let r = Reach.later r (Step.switches true (sender true 2) refl refl) in
      let r = Reach.later r (Step.goes_on 0 (omega arith) refl refl) in
      let r = Reach.later r (Step.goes_on 1 (omega arith) refl refl) in
      let r = Reach.later r (Step.sees 0 (omega arith) refl (λ e. omega (arith, e))) in
      let r = Reach.later r (Step.sees 1 (omega arith) refl (λ e. omega (arith, e))) in
      let r = Reach.later r (Step.fetches 0 (omega arith) refl) in
      let r = Reach.later r (Step.fetches 1 (omega arith) refl) in (_, r, refl)

  module _ (many : 2 ≤ c.number_seeds) (x y : List ℕ) where
    two_stored : Station
    two_stored = produce c (store_and_test c k db id y) (produce c (find_room c) (one_stored x))

    -- A run in which just these two tuples were stored, in this order.
    abbrev Storing : Station → Type 0
    Storing t =
        RunsStoring c k db id fresh fresh_seed
          (push (made_of c k db id y) (push (made_of c k db id x) empty_queue)) t

    constructed_Runs :
        RunsStoring c k db id fresh fresh_seed empty_queue
          (produce c (construct c) (start_station c fresh fresh_seed))
    unfolding start_station start_worker
    constructed_Runs = RunsStoring.later RunsStoring.starts (Step.constructs refl)

    two_stored-Runs : Storing two_stored
    unfolding two_stored one_stored produce start_station start_worker construct find_room
        store_and_test empty_pool store_tuple
    two_stored-Runs =
        let r = constructed_Runs in
        let r = RunsStoring.later r (Step.finds_room (omega arith) (omega (arith, v.some_slot))) in
        let r = RunsStoring.later r (Step.stores x (omega arith)) in
        let r = RunsStoring.later r (Step.finds_room (omega arith) (omega (arith, many))) in
        RunsStoring.later r (Step.stores y (omega arith))

    -- The pool that holds both tuples, after the first is taken.
    second_left :
        Represents c
          (take_tuple c two_stored.worker.pool)
          (pop (push (made_of c k db id y) (push (made_of c k db id x) empty_queue)))
    unfolding two_stored one_stored produce start_station start_worker construct find_room
        store_and_test
    second_left =
        let r = empty_pool-Represents c v fresh in
        let r =
          store_tuple-Represents c v _ _ r (at x) (precompute_block c k db id x) v.some_slot in
        let r = store_tuple-Represents c v _ _ r (at y) (precompute_block c k db id y) many in
        take_tuple-Represents c v _ _ r (omega arith)

    -- With two slots or more, for any two seeds: a schedule from the constructor on, with one
    -- thread of `transfer`, stores the tuple of the first seed, then that of the second and no
    -- other, and sends the second one twice and nothing else, with the pool empty again: the thread
    -- has put it in its buffer before the first is written.
    pub second_sent_twice :
        (t : Station) × Storing t
        × (t.sent.count ≡ 2)
        × ((n : ℕ) → n < 2 → IsSame c (t.sent.tuple_at n) (made_of c k db id y))
        × (t.worker.pool.available ≡ 0)
    unfolding two_stored one_stored produce start_station start_worker construct find_room
        store_and_test switch move set_active empty_pool store_tuple fetch take_and_launch
        take_tuple hand_over write
    second_sent_twice =
        let r = two_stored-Runs in
        let r = RunsStoring.later r (Step.switches true (sender true 1) refl refl) in
        let r = RunsStoring.later r (Step.goes_on 0 (omega arith) refl refl) in
        let r = RunsStoring.later r (Step.sees 0 (omega arith) refl (λ e. omega (arith, e))) in
        let r = RunsStoring.later r (Step.fetches 0 (omega arith) refl) in
        let r = RunsStoring.later r (Step.hands_over 0 (omega arith) refl) in
        let r = RunsStoring.later r (Step.goes_on 0 (omega arith) refl refl) in
        let r = RunsStoring.later r (Step.sees 0 (omega arith) refl (λ e. omega (arith, e))) in
        let r = RunsStoring.later r (Step.fetches 0 (omega arith) refl) in
        let r = RunsStoring.later r (Step.writes 0 [] refl (λ e. omega (arith, ap rank e))) in
        let r = RunsStoring.later r (Step.hands_over 0 (omega arith) refl) in
        let r = RunsStoring.later r (Step.writes 0 [] refl (λ e. omega (arith, ap rank e))) in
        (
          _,
          r,
          refl,
          λ n h j l.
              ap (λ b. b j) (both_pushed _ _ n h)
              ∙ copied_tuple-first c v _ _ second_left
                  (copied_tuple c (fresh_seed 0) two_stored.worker.pool) (omega arith) j l,
          refl,
        )
