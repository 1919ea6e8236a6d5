-- ===== src/Tests/Transfer.antt =====
-- A worker that sends a tuple, at the small configuration.
use cip_pir.Base.{
  ℕ, ◌+◌, ◌-◌, ◌<◌, ◌≤◌, ◌≡◌, ◌^◌, List, [], ◌∷◌, true, arith, refl, ap, ◌∙◌, inl, at, some, zero,
  suc, ◌*◌, false,
}
use mathlib.Core.List.{Mem, not-mem-nil, eq-or-mem_of_mem-cons}
use mathlib.Core.Path.{subst}
use mathlib.Core.Logic.Or
use native.Mathlib.Nat.{ℕ_set}
use cip_pir.Base.Memory.{zeros}
use cip_pir.Seeds.{empty_pool, store_tuple}
use cip_pir.Seeds.Slots.{IsRing, tuple_size}
use cip_pir.Feed.{precompute_remote, stream_message, taken}
use cip_pir.Feed.Stream.{precompute_remote-stream_message}
use cip_pir.Feed.Sent.{IsMadeOf, RunsCarefully-precompute_remote}
use cip_pir.Seeds.Queue.{
  Queue, Represents, tuple_of, empty_pool-Represents, store_tuple-Represents, push, empty_queue,
}
use cip_pir.Center.{start_worker, construct, find_room, store_and_test, take_and_launch}
use cip_pir.Control.{Sender, set_active}
use cip_pir.Transfers.{
  Place, Station, Step, Reach, start_station, move, fetch, hand_over, write, switch, produce,
}
use cip_pir.Transfers.Flight.{IsCareful, IsSame, rank}
use cip_pir.Transfers.Careful.{made_of, RunsCarefully, RunsStoring}
use cip_pir.Transfers.Order.{RunsCarefully-IsSame}
use cip_pir.Transfers.Races.{transfers_underflow, second_sent_twice}
use cip_pir.Tests.Setup.{small, toy_crypto}

small-IsRing : IsRing small
small-IsRing = omega arith

abbrev start_small : Station
start_small = start_station small zeros (λ i. zeros)

pub none_pending : (s : Station) → s.sender.started ≤ 1 → s.pending ≡ [] → IsCareful small s
none_pending s h e = record {
  alone = λ i j p q a b. omega arith;
  kept = λ i m. absurd (not-mem-nil (subst (λ l. Mem i l) e m));
}

abbrev seed : List ℕ
seed = 7 ∷ 8 ∷ []

-- The run up to the moment when the thread has its tuple.
held_run :
    (s : Station) × RunsCarefully small toy_crypto zeros 1 zeros
      (λ i. zeros)
      (push (made_of small toy_crypto zeros 1 seed) empty_queue)
      s
    × (s.sender.started ≡ 1)
    × (s.pending ≡ [])
    × ((s.threads 0).place ≡ Place.sending)
unfolding produce start_station start_worker construct find_room store_and_test switch move
    set_active empty_pool store_tuple fetch take_and_launch
held_run =
    let sender : Sender = record { active = true; started = 1 } in
    let r = RunsCarefully.starts in
    let r = RunsCarefully.later r (Step.constructs refl) (none_pending _ (omega arith) refl) in
    let r =
      RunsCarefully.later r (Step.finds_room (omega arith) (omega arith))
        (none_pending _ (omega arith) refl) in
    let r =
      RunsCarefully.later r (Step.stores seed (omega arith)) (none_pending _ (omega arith) refl) in
    let r =
      RunsCarefully.later r (Step.switches true sender refl refl)
        (none_pending _ (omega arith) refl) in
    let r =
      RunsCarefully.later r (Step.goes_on 0 (omega arith) refl refl)
        (none_pending _ (omega arith) refl) in
    let r =
      RunsCarefully.later r (Step.sees 0 (omega arith) refl (λ e. omega (arith, e)))
        (none_pending _ (omega arith) refl) in
    let r =
      RunsCarefully.later r (Step.fetches 0 (omega arith) refl)
        (none_pending _ (omega arith) refl) in
    (_, r, refl, refl, refl)

only_zero : (i : ℕ) → Mem i (0 ∷ []) → i ≡ 0
only_zero i m = Or.elim (ℕ_set i 0) (eq-or-mem_of_mem-cons m) (λ e. e) (λ n. absurd (not-mem-nil n))

pub one_pending :
    (s : Station)
    → s.sender.started ≤ 1
    → s.pending ≡ 0 ∷ []
    → (s.threads 0).place ≡ Place.testing
    → IsCareful small s
one_pending s h e p = record {
  alone = λ i j p q a b. omega arith;
  kept = λ i m. inl (ap (λ j. (s.threads j).place) (only_zero i (subst (λ l. Mem i l) e m)) ∙ p);
}

-- The run with the tuple handed over and written.
sent_run :
    (s : Station) × RunsCarefully small toy_crypto zeros 1 zeros
      (λ i. zeros)
      (push (made_of small toy_crypto zeros 1 seed) empty_queue)
      s
    × (s.sent.count ≡ 1)
unfolding held_run produce start_station start_worker construct find_room store_and_test switch move
    set_active empty_pool store_tuple fetch take_and_launch hand_over write
sent_run =
    let (s, r, started, pending, place) = held_run in
    let r =
      RunsCarefully.later r (Step.hands_over 0 (omega arith) place)
        (one_pending _ (omega arith) refl refl) in
    let r =
      RunsCarefully.later r (Step.writes 0 [] refl (λ e. omega (arith, ap rank e)))
        (none_pending _ (omega arith) refl) in
    (_, r, refl)

RunsCarefully-IsSame_example :
    ((n : ℕ)
      → n < sent_run.0.sent.count
      → IsSame small
          (sent_run.0.sent.tuple_at n)
          ((push (made_of small toy_crypto zeros 1 seed) empty_queue).tuple_at n))
    × (sent_run.0.sent.count + sent_run.0.worker.pool.available ≤ 1)
    × (1 ≤ sent_run.0.sent.count + 1 + sent_run.0.worker.pool.available)
RunsCarefully-IsSame_example = RunsCarefully-IsSame small toy_crypto zeros 1 small-IsRing sent_run.1

transfers_underflow_example :
    (t : Station) × Reach small toy_crypto zeros 1 start_small t
    × (t.worker.pool.available ≡ 2 ^ 32 - 1)
transfers_underflow_example =
    transfers_underflow small toy_crypto zeros 1 small-IsRing zeros (λ i. zeros)

second_sent_twice_example :
    (t : Station) × RunsStoring small toy_crypto zeros 1 zeros
      (λ i. zeros)
      (push
        (made_of small toy_crypto zeros 1 seed)
        (push (made_of small toy_crypto zeros 1 []) empty_queue))
      t
    × (t.sent.count ≡ 2)
    × ((n : ℕ) → n < 2 → IsSame small (t.sent.tuple_at n) (made_of small toy_crypto zeros 1 seed))
    × (t.worker.pool.available ≡ 0)
second_sent_twice_example =
    second_sent_twice small toy_crypto zeros 1 small-IsRing zeros (λ i. zeros) (omega arith) [] seed

-- A peer server with one tuple and one free slot.
fed_pool :
    Represents small
      (store_tuple small (at []) zeros (empty_pool small zeros))
      (push (tuple_of small (at []) zeros) empty_queue)
fed_pool =
    store_tuple-Represents small small-IsRing (empty_pool small zeros) empty_queue
      (empty_pool-Represents small small-IsRing zeros) (at []) zeros (omega arith)

in_stream :
    (n j : ℕ)
    → n < sent_run.0.sent.count
    → j < tuple_size small
    → sent_run.0.sent.tuple_at 0 (n * tuple_size small + j) ≡ sent_run.0.sent.tuple_at n j
in_stream zero j h l = ap (sent_run.0.sent.tuple_at 0) (omega arith)
in_stream (suc n) j h l = absurd (omega (arith, h, sent_run.2))

RunsCarefully-precompute_remote_example :
    let fed =
      precompute_remote small 1 true true
        (λ i. some (stream_message (sent_run.0.sent.tuple_at 0) (λ t. tuple_size small + 0) i))
        (store_tuple small (at []) zeros (empty_pool small zeros)) in
    let before = push (tuple_of small (at []) zeros) empty_queue in
    let log = push (made_of small toy_crypto zeros 1 seed) empty_queue in
    (q : Queue) × Represents small fed.pool q
    × (q.count ≡ 2)
    × ((n : ℕ) → n < 1 → q.tuple_at n ≡ before.tuple_at n)
    × ((n : ℕ)
        → n < 2 - 1
        → IsMadeOf small toy_crypto zeros 1 (log.tuple_at n)
          × IsSame small (q.tuple_at (1 + n)) (log.tuple_at n))
RunsCarefully-precompute_remote_example =
    RunsCarefully-precompute_remote small toy_crypto zeros 1 small-IsRing sent_run.1 true
      (sent_run.0.sent.tuple_at 0) (store_tuple small (at []) zeros (empty_pool small zeros))
      (push (tuple_of small (at []) zeros) empty_queue) fed_pool in_stream
      (omega (arith, sent_run.2))

-- Each read takes three bytes too many.
precompute_remote-stream_message_example :
    let fed =
      precompute_remote small 1 true false
        (λ i. some (stream_message (λ j. j) (λ t. tuple_size small + 3) i))
        (empty_pool small zeros) in
    (q : Queue) × Represents small fed.pool q
    × (q.count ≡ 2)
    × ((n : ℕ) → n < 0 → q.tuple_at n ≡ empty_queue.tuple_at n)
    × ((n j : ℕ)
        → n < 2 - 0
        → j < tuple_size small
        → q.tuple_at (0 + n) j ≡ n * tuple_size small + taken (λ t. 3) n + j)
    × (fed.terminated ≡ false)
precompute_remote-stream_message_example =
    precompute_remote-stream_message small small-IsRing 1 false (λ j. j) (λ t. 3)
      (empty_pool small zeros) empty_queue (empty_pool-Represents small small-IsRing zeros)
