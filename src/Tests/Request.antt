-- ===== src/Tests/Request.antt =====
-- Requests, and what the servers load and compute for them.
use mathlib.Core.List.Perm
use cip_pir.Base.{◌+◌, ◌≡◌, refl, arith, [], ◌∷◌, bit_xor, some}
use cip_pir.Base.Memory.{zeros, Buffer}
use cip_pir.Base.Order.{below, IsOrder}
use cip_pir.Server.{loaded, read_db, groups_right, groups_left, precompute_block}
use cip_pir.Server.Database.{Holds, read_db_lem}
use cip_pir.Client.{Client, handle_seed}
use cip_pir.Client.Query.{handle_seed_lem, contribution}
use cip_pir.Protocol.{request}
use cip_pir.Protocol.Sums.{precompute_block-total, total}
use cip_pir.Protocol.Retrieval.{request_returns_block}
use cip_pir.Tests.Setup.{
  small, small-IsConfig, small_file, small_blocks, small-preprocessed, toy_crypto, small_seed,
  small_peers, small_peers-IsReady, below_0, below_1,
}

abbrev blank : Client
blank = record { query_buf = λ i. 9; result_buf = λ i. 9 }

up : IsOrder 2 (0 ∷ 1 ∷ [])
unfolding below
up = Perm.swap 1 0 []

down : IsOrder 2 (1 ∷ 0 ∷ [])
unfolding below
down = Perm.refl _

request_returns_block_example :
    (request small toy_crypto small_peers (0 ∷ 1 ∷ []) (1 ∷ 0 ∷ []) 9 blank).result_buf 1 ≡ 91
request_returns_block_example =
    request_returns_block small small-IsConfig toy_crypto small_peers small_file 3 small_blocks
      small-preprocessed small_peers-IsReady 9 (omega arith) (0 ∷ 1 ∷ []) (1 ∷ 0 ∷ []) blank 1 up
      down (omega arith)

handle_seed_lem_example :
    (handle_seed small toy_crypto 0 (small_seed 0) blank).query_buf 1
    ≡ bit_xor 9 (contribution small 0 toy_crypto (small_seed 0) 1)
handle_seed_lem_example =
    handle_seed_lem small small-IsConfig 0 below_0 toy_crypto (small_seed 0) blank 1

read_db_lem_example :
    (db : Buffer) × (key : Buffer) × (read_db small (some small_file) 1 3 zeros zeros
      ≡ loaded db key ((groups_right small 1).0 + groups_left small 1))
    × Holds small small-IsConfig 1 below_1 small_file 3 db key
read_db_lem_example = read_db_lem small small-IsConfig 1 below_1 small_file 3 zeros zeros refl

precompute_block-total_example :
    let db = (small_peers 0).db in
    precompute_block small toy_crypto db 0 (small_seed 0) 1
    ≡ total small_blocks 2 (contribution small 0 toy_crypto (small_seed 0)) 1
precompute_block-total_example =
    precompute_block-total small small-IsConfig 0 below_0 toy_crypto (small_seed 0) small_blocks
      small_file 3 (read_db_lem small small-IsConfig 0 below_0 small_file 3 zeros zeros refl).3
      small-preprocessed 1 (omega arith)
