-- ===== src/Tests/Pool.antt =====
-- The seed pool and the center server's worker, at the small configuration.
use cip_pir.Base.{ℕ, ◌+◌, ◌≤◌, ◌<◌, ◌≡◌, ◌⊎◌, [], ◌∷◌, some, none, arith, at}
use cip_pir.Base.Memory.{Buffer, zeros}
use cip_pir.Connection.{Reply, serve}
use cip_pir.Connection.Answer.{IsReply, serve-IsReply}
use cip_pir.Tests.Setup.{toy_curve}
use cip_pir.Seeds.{Pool, empty_pool, store_tuple, next_seed}
use cip_pir.Seeds.Slots.{IsRing, tuple_size}
use cip_pir.Seeds.Queue.{
  Queue, Represents, push, pop, empty_queue, tuple_of, empty_pool-Represents,
  store_tuple-Represents, next_seed-Represents,
}
use cip_pir.Center.{Worker, Reach, start_worker, construct, find_room, store_and_test}
use cip_pir.Center.Stall.{IsStuck, worker_can_stall}
use cip_pir.Tests.Setup.{small, toy_crypto}

small-IsRing : IsRing small
small-IsRing = omega arith

abbrev seed_a : Buffer
seed_a = at (5 ∷ 6 ∷ [])

abbrev block_a : Buffer
block_a i = 40 + i

abbrev pool_zero : Pool
pool_zero = empty_pool small zeros

abbrev pool_one : Pool
pool_one = store_tuple small seed_a block_a pool_zero

pool_one-Represents : Represents small pool_one (push (tuple_of small seed_a block_a) empty_queue)
pool_one-Represents =
    store_tuple-Represents small small-IsRing pool_zero empty_queue
      (empty_pool-Represents small small-IsRing zeros) seed_a block_a (omega arith)

abbrev queue_one : Queue
queue_one = push (tuple_of small seed_a block_a) empty_queue

next_seed-Represents_example :
    ((queue_one.count ≡ 0) × (next_seed small zeros pool_one ≡ none))
    ⊎ ((1 ≤ queue_one.count)
        × (t : Buffer) × (rest : Pool) × (next_seed small zeros pool_one ≡ some (t, rest))
        × ((j : ℕ) → j < tuple_size small → t j ≡ queue_one.tuple_at 0 j)
        × Represents small rest (pop queue_one))
next_seed-Represents_example =
    next_seed-Represents small small-IsRing pool_one queue_one pool_one-Represents zeros

abbrev worker_zero : Worker
worker_zero = start_worker small zeros

abbrev worker_one : Worker
worker_one =
    construct small
      (store_and_test small toy_crypto zeros 1 (7 ∷ 8 ∷ []) (find_room small worker_zero))

worker_can_stall_example :
    (t : Worker) × Reach small toy_crypto zeros 1 (start_worker small zeros) t
    × IsStuck small toy_crypto zeros 1 small-IsRing zeros t
worker_can_stall_example = worker_can_stall small toy_crypto zeros 1 small-IsRing zeros

serve-IsReply_example :
    ((queue_one.count ≡ 0) × (serve small toy_curve 0 9 zeros block_a zeros zeros pool_one ≡ none))
    ⊎ ((1 ≤ queue_one.count)
        × (r : Reply) × (serve small toy_curve 0 9 zeros block_a zeros zeros pool_one ≡ some r)
        × IsReply small toy_curve 0 9 zeros block_a zeros zeros (queue_one.tuple_at 0) r
        × Represents small r.left (pop queue_one))
serve-IsReply_example =
    serve-IsReply small toy_curve 0 9 zeros block_a zeros zeros small-IsRing pool_one queue_one
      pool_one-Represents
