-- ===== src/Tests/Fed.antt =====
-- A request to servers that are fed by a center server, at the small configuration.
use mathlib.Core.List.Perm
use mathlib.Core.Path.{subst}
use native.Mathlib.Bridge.{le_prop}
use cip_pir.Base.{
  ℕ, zero, suc, ◌+◌, ◌*◌, ◌/◌, ◌%◌, ◌<◌, ◌≤◌, ◌≡◌, arith, refl, ap, ap₂, List, [], ◌∷◌, some, true,
}
use cip_pir.Base.Memory.{Buffer, advance, zeros}
use cip_pir.Base.Order.{below, IsOrder}
use cip_pir.Server.Database.{read_db_lem}
use cip_pir.Seeds.{Pool, empty_pool, store_tuple, take_tuple, copied_tuple, next_seed}
use cip_pir.Seeds.Slots.{IsRing}
use cip_pir.Seeds.Queue.{empty_queue, push, empty_pool-Represents}
use cip_pir.Center.{start_worker, construct, find_room, store_and_test, take_and_launch}
use cip_pir.Control.{Sender, set_active}
use cip_pir.Transfers.{Station, Step, start_station, move, fetch, hand_over, write, switch, produce}
use cip_pir.Transfers.Flight.{rank}
use cip_pir.Transfers.Careful.{made_of, RunsCarefully}
use cip_pir.Feed.Sent.{RunsCarefully-precompute_remote}
use cip_pir.Client.{Client}
use cip_pir.Protocol.{Peer, request}
use cip_pir.Protocol.System.{fed_from, IsFed, request-precompute_remote}
use cip_pir.Tests.Transfer.{none_pending, one_pending}
use cip_pir.Tests.Setup.{
  small, small-IsConfig, small_file, small_blocks, small-preprocessed, toy_crypto, small_seed,
  below_0, below_1, small_peer,
}

small-IsRing : IsRing small
small-IsRing = omega arith

module _ (db : Buffer) (id : ℕ) (x y : List ℕ) where
  -- A worker stores two tuples.
  stored_run :
      (s : Station) × RunsCarefully small toy_crypto db id zeros
        (λ i. zeros)
        (push
          (made_of small toy_crypto db id y)
          (push (made_of small toy_crypto db id x) empty_queue))
        s
  unfolding produce start_station start_worker construct find_room store_and_test empty_pool
      store_tuple
  stored_run =
      let r = RunsCarefully.starts in
      let r = RunsCarefully.later r (Step.constructs refl) (none_pending _ (omega arith) refl) in
      let r =
        RunsCarefully.later r (Step.finds_room (omega arith) (omega arith))
          (none_pending _ (omega arith) refl) in
      let r =
        RunsCarefully.later r (Step.stores x (omega arith)) (none_pending _ (omega arith) refl) in
      let r =
        RunsCarefully.later r (Step.finds_room (omega arith) (omega arith))
          (none_pending _ (omega arith) refl) in
      let r =
        RunsCarefully.later r (Step.stores y (omega arith)) (none_pending _ (omega arith) refl) in
      (_, r)

  -- It sends both.
  sent_run :
      (s : Station) × RunsCarefully small toy_crypto db id zeros
        (λ i. zeros)
        (push
          (made_of small toy_crypto db id y)
          (push (made_of small toy_crypto db id x) empty_queue))
        s
      × (s.sent.count ≡ 2)
  unfolding stored_run produce start_station start_worker construct find_room store_and_test
      empty_pool store_tuple switch move set_active fetch take_and_launch take_tuple hand_over write
  sent_run =
      let sender : Sender = record { active = true; started = 1 } in
      let r = stored_run.1 in
      let r =
        RunsCarefully.later r (Step.switches true sender refl refl)
          (none_pending _ (omega arith) refl) in
      let r =
        RunsCarefully.later r (Step.goes_on 0 (omega arith) refl refl)
          (none_pending _ (omega arith) refl) in
      let r =
        RunsCarefully.later r (Step.sees 0 (omega arith) refl (λ e. omega (arith, e)))
          (none_pending _ (omega arith) refl) in
      let r =
        RunsCarefully.later r (Step.fetches 0 (omega arith) refl)
          (none_pending _ (omega arith) refl) in
      let r =
        RunsCarefully.later r (Step.hands_over 0 (omega arith) refl)
          (one_pending _ (omega arith) refl refl) in
      let r =
        RunsCarefully.later r (Step.writes 0 [] refl (λ e. omega (arith, ap rank e)))
          (none_pending _ (omega arith) refl) in
      let r =
        RunsCarefully.later r (Step.goes_on 0 (omega arith) refl refl)
          (none_pending _ (omega arith) refl) in
      let r =
        RunsCarefully.later r (Step.sees 0 (omega arith) refl (λ e. omega (arith, e)))
          (none_pending _ (omega arith) refl) in
      let r =
        RunsCarefully.later r (Step.fetches 0 (omega arith) refl)
          (none_pending _ (omega arith) refl) in
      let r =
        RunsCarefully.later r (Step.hands_over 0 (omega arith) refl)
          (one_pending _ (omega arith) refl refl) in
      let r =
        RunsCarefully.later r (Step.writes 0 [] refl (λ e. omega (arith, ap rank e)))
          (none_pending _ (omega arith) refl) in
      (_, r, refl)

  -- What arrives at the peer server.
  stream : Buffer
  stream i = sent_run.0.sent.tuple_at (i / 4) (i % 4)

  stream_sent : (n j : ℕ) → j < 4 → stream (n * 4 + j) ≡ sent_run.0.sent.tuple_at n j
  unfolding stream
  stream_sent n j h = ap₂ (λ a b. sent_run.0.sent.tuple_at a b) (omega arith) (omega arith)

  full :
      2
      ≤ (fed_from small small-IsConfig toy_crypto small_file 3 id true stream zeros).pool.available
  full =
      let (queue, holds, count, old, new) =
        RunsCarefully-precompute_remote small toy_crypto db id small-IsRing sent_run.1 true stream
          (empty_pool small zeros) empty_queue (empty_pool-Represents small small-IsRing zeros)
          (λ n j h l. stream_sent n j l) (omega (arith, sent_run.2)) in
      omega (arith, holds.counted, count)

draws_some :
    (p : Pool)
    → 2 ≤ p.available
    → next_seed small zeros p ≡ some (copied_tuple small zeros p, take_tuple small p)
unfolding next_seed
draws_some p h = ground arith

abbrev fed_pool : (id : ℕ) → id < 2 → Pool
fed_pool id h =
    (fed_from small small-IsConfig toy_crypto small_file 3 id true
      (stream (small_peer id h).db id (small_seed id) []) zeros).pool

abbrev fed_peer : (id : ℕ) → id < 2 → Peer
fed_peer id h = record {
  db = (small_peer id h).db;
  tuple = record {
    seed = small_seed id;
    block = advance (copied_tuple small zeros (fed_pool id h)) 2;
  };
  fresh = zeros;
}

abbrev fed_peers : ℕ → Peer
fed_peers zero = fed_peer 0 below_0
fed_peers (suc id) = fed_peer 1 below_1

fed_peer-IsFed :
    (id : ℕ) (h : id < 2) → IsFed small small-IsConfig toy_crypto small_file 3 id h (fed_peer id h)
fed_peer-IsFed id h =
    let (db, key, e, held) = read_db_lem small small-IsConfig id h small_file 3 zeros zeros refl in
    let (station, run, two_sent) = sent_run db id (small_seed id) [] in
    record {
      key = key;
      holds = held;
      worker_memory = zeros;
      worker_buffers = λ i. zeros;
      log =
          push (made_of small toy_crypto db id [])
            (push (made_of small toy_crypto db id (small_seed id)) empty_queue);
      station = station;
      run = run;
      enough = omega (arith, two_sent);
      stream = stream db id (small_seed id) [];
      arrives = λ n j a l. stream_sent db id (small_seed id) [] n j l;
      ends = true;
      memory = zeros;
      fresh = zeros;
      drawn = copied_tuple small zeros (fed_pool id h);
      rest = take_tuple small (fed_pool id h);
      draws = draws_some (fed_pool id h) (full db id (small_seed id) []);
      its_seed = refl;
      its_block = refl;
    }

fed_peers-IsFed :
    (id : ℕ) (h : id < 2) → IsFed small small-IsConfig toy_crypto small_file 3 id h (fed_peers id)
fed_peers-IsFed zero h =
    subst (λ p. IsFed small small-IsConfig toy_crypto small_file 3 0 p (fed_peers 0))
      (le_prop below_0 h) (fed_peer-IsFed 0 below_0)
fed_peers-IsFed (suc zero) h =
    subst (λ p. IsFed small small-IsConfig toy_crypto small_file 3 1 p (fed_peers 1))
      (le_prop below_1 h) (fed_peer-IsFed 1 below_1)
fed_peers-IsFed (suc (suc id)) h = absurd (omega arith)

abbrev blank : Client
blank = record { query_buf = zeros; result_buf = zeros }

up : IsOrder 2 (0 ∷ 1 ∷ [])
unfolding below
up = Perm.swap 1 0 []

request-precompute_remote_example :
    (request small toy_crypto fed_peers (0 ∷ 1 ∷ []) (0 ∷ 1 ∷ []) 4 blank).result_buf 1 ≡ 41
request-precompute_remote_example =
    request-precompute_remote small small-IsConfig toy_crypto small_file 3 small-IsRing fed_peers
      small_blocks small-preprocessed fed_peers-IsFed 4 (omega arith) (0 ∷ 1 ∷ []) (0 ∷ 1 ∷ [])
      blank 1 up up (omega arith)
