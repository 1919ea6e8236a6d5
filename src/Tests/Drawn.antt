-- ===== src/Tests/Drawn.antt =====
-- A request to servers with a tuple in each pool, at the small configuration.
use mathlib.Core.List.Perm
use mathlib.Core.Path.{subst}
use native.Mathlib.Bridge.{le_prop}
use cip_pir.Base.{ℕ, zero, suc, ◌<◌, ◌≡◌, arith, refl, [], ◌∷◌, at}
use cip_pir.Base.Memory.{advance, zeros}
use cip_pir.Base.Order.{below, IsOrder}
use cip_pir.Server.{precompute_block}
use cip_pir.Server.Database.{read_db_lem}
use cip_pir.Seeds.{Pool, empty_pool, store_tuple, take_tuple, copied_tuple, next_seed}
use cip_pir.Seeds.Slots.{IsRing}
use cip_pir.Seeds.Queue.{empty_queue, push, tuple_of, empty_pool-Represents, store_tuple-Represents}
use cip_pir.Client.{Client}
use cip_pir.Protocol.{Peer, request}
use cip_pir.Protocol.Pools.{IsDrawn, request-next_seed}
use cip_pir.Tests.Setup.{
  small, small-IsConfig, small_file, small_blocks, small-preprocessed, toy_crypto, small_seed,
  below_0, below_1, small_peer,
}

small-IsRing : IsRing small
small-IsRing = omega arith

-- The pool of a server that has stored one tuple.
abbrev one_tuple : (id : ℕ) → id < 2 → Pool
one_tuple id h =
    store_tuple small (at (small_seed id))
      (precompute_block small toy_crypto (small_peer id h).db id (small_seed id))
      (empty_pool small zeros)

abbrev drawing_peer : (id : ℕ) → id < 2 → Peer
drawing_peer id h = record {
  db = (small_peer id h).db;
  tuple = record {
    seed = small_seed id;
    block = advance (copied_tuple small zeros (one_tuple id h)) 2;
  };
  fresh = zeros;
}

abbrev drawing_peers : ℕ → Peer
drawing_peers zero = drawing_peer 0 below_0
drawing_peers (suc id) = drawing_peer 1 below_1

drawing_peer-IsDrawn :
    (id : ℕ) (h : id < 2)
    → IsDrawn small small-IsConfig toy_crypto small_file 3 id h (drawing_peer id h)
unfolding next_seed store_tuple empty_pool take_tuple
drawing_peer-IsDrawn id h =
    let (db, key, e, held) = read_db_lem small small-IsConfig id h small_file 3 zeros zeros refl in
    record {
      key = key;
      holds = held;
      pool = one_tuple id h;
      queue =
          push
            (tuple_of small (at (small_seed id))
              (precompute_block small toy_crypto db id (small_seed id)))
            empty_queue;
      represents =
          store_tuple-Represents small small-IsRing (empty_pool small zeros) empty_queue
            (empty_pool-Represents small small-IsRing zeros) (at (small_seed id))
            (precompute_block small toy_crypto db id (small_seed id)) (omega arith);
      some_tuple = omega arith;
      oldest = (small_seed id, λ j l. refl);
      fresh = zeros;
      rest = take_tuple small (one_tuple id h);
      drawn = copied_tuple small zeros (one_tuple id h);
      draws = refl;
      its_seed = refl;
      its_block = refl;
    }

drawing_peers-IsDrawn :
    (id : ℕ) (h : id < 2)
    → IsDrawn small small-IsConfig toy_crypto small_file 3 id h (drawing_peers id)
drawing_peers-IsDrawn zero h =
    subst (λ p. IsDrawn small small-IsConfig toy_crypto small_file 3 0 p (drawing_peers 0))
      (le_prop below_0 h) (drawing_peer-IsDrawn 0 below_0)
drawing_peers-IsDrawn (suc zero) h =
    subst (λ p. IsDrawn small small-IsConfig toy_crypto small_file 3 1 p (drawing_peers 1))
      (le_prop below_1 h) (drawing_peer-IsDrawn 1 below_1)
drawing_peers-IsDrawn (suc (suc id)) h = absurd (omega arith)

abbrev blank : Client
blank = record { query_buf = zeros; result_buf = zeros }

up : IsOrder 2 (0 ∷ 1 ∷ [])
unfolding below
up = Perm.swap 1 0 []

request-next_seed_example :
    (request small toy_crypto drawing_peers (0 ∷ 1 ∷ []) (0 ∷ 1 ∷ []) 4 blank).result_buf 1 ≡ 41
request-next_seed_example =
    request-next_seed small small-IsConfig toy_crypto small_file 3 small-IsRing drawing_peers
      small_blocks small-preprocessed drawing_peers-IsDrawn 4 (omega arith) (0 ∷ 1 ∷ [])
      (0 ∷ 1 ∷ []) blank 1 up up (omega arith)
