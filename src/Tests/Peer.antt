-- ===== src/Tests/Peer.antt =====
-- The threads of a peer server and the batch on the accelerator.
use cip_pir.Base.{ℕ, ◌+◌, ◌-◌, ◌<◌, ◌≡◌, refl, arith, [], ◌∷◌, at, some, true, false}
use cip_pir.Base.Memory.{Buffer, zeros}
use cip_pir.Chunks.{server_map}
use cip_pir.Config.{Config}
use cip_pir.Walk.{walk_round}
use cip_pir.Kernels.{fastxor}
use cip_pir.Server.{groups_to_generate, bytes_to_generate}
use cip_pir.Seeds.{empty_pool}
use cip_pir.Seeds.Slots.{IsRing}
use cip_pir.Seeds.Queue.{empty_queue, Represents, tuple_of, empty_pool-Represents}
use cip_pir.Accelerator.Kernel.{IsSmall}
use cip_pir.Batch.{precompute_batch}
use cip_pir.Batch.Fills.{push_all, precompute_batch-Represents}
use cip_pir.Feed.{precompute_remote}
use cip_pir.Feed.Fills.{precompute_remote-Represents}
use cip_pir.Producers.{Peer, Step, Reach, Without, start_peer, begin, count_seeds, fill}
use cip_pir.Producers.Alone.{RunsAlone, IsPeer, RunsAlone-IsPeer}
use cip_pir.Producers.Overrun.{peer_can_overrun}
use cip_pir.Tests.Setup.{small, toy_crypto}

-- Sixteen blocks of four bytes, for two servers.
abbrev medium : Config
medium = record {
  entries = 16;
  entry_size = 4;
  servers = 2;
  chunks = 2;
  block_size = 4;
  security_level = 16;
  number_seeds = 3;
  manifest_bytes = 2;
}

medium-IsSmall : IsSmall medium
medium-IsSmall = record { some_word = omega arith; words = refl; one_each = omega arith }

medium-IsRing : IsRing medium
medium-IsRing = omega arith

one_byte : bytes_to_generate medium 0 ≡ 1
unfolding groups_to_generate server_map walk_round
one_byte = refl

small-IsRing : IsRing small
small-IsRing = omega arith

precompute_batch-Represents_example :
    (block : Buffer) × ((j : ℕ)
      → j < 4
      → let n = bytes_to_generate medium 0 in
        block j ≡ fastxor medium zeros (λ o. o) (toy_crypto.gen_rnd_from_seed (0 ∷ []) n) n j)
    × Represents medium
        (precompute_batch medium toy_crypto
          (λ o. o)
          0
          (λ i. i ∷ [])
          zeros
          zeros
          (empty_pool medium zeros))
        (push_all (λ t. tuple_of medium (at (t ∷ [])) block) 3 0 empty_queue)
precompute_batch-Represents_example =
    precompute_batch-Represents medium medium-IsRing medium-IsSmall toy_crypto (λ o. o) 0
      (λ i. i ∷ []) zeros zeros (empty_pool medium zeros) empty_queue
      (empty_pool-Represents medium medium-IsRing zeros) (omega arith) (omega (arith, one_byte))
      (omega (arith, one_byte))

peer_can_overrun_example :
    (w : Peer) × Reach small toy_crypto zeros 0 (start_peer small zeros) w
    × (w.pool.available ≡ 2 + 1)
peer_can_overrun_example =
    peer_can_overrun small toy_crypto zeros 0 small-IsRing zeros (omega arith)

-- The constructor's thread, up to the end of its writes.
filled_alone : (w : Peer) × RunsAlone small toy_crypto zeros 0 zeros w
unfolding start_peer begin count_seeds fill
filled_alone = (
  _,
  RunsAlone.later
      (RunsAlone.later (RunsAlone.later RunsAlone.starts (Step.begins (omega arith)) (omega arith))
        (Step.counts (omega arith)) (omega arith))
      (Step.fills _ [] (λ i. i ∷ []) zeros zeros Without.first) (omega arith),
)

RunsAlone-IsPeer_example : IsPeer small toy_crypto zeros 0 filled_alone.0
RunsAlone-IsPeer_example = RunsAlone-IsPeer small toy_crypto zeros 0 small-IsRing filled_alone.1

precompute_remote-Represents_example :
    let fed =
      precompute_remote medium 1 true false (λ t. some (λ j. t)) (empty_pool medium zeros) in
    Represents medium fed.pool (push_all (λ t j. t) (3 - 0) 0 empty_queue)
    × (fed.terminated ≡ false)
precompute_remote-Represents_example =
    precompute_remote-Represents medium medium-IsRing 1 true false (λ t j. t)
      (empty_pool medium zeros) empty_queue (empty_pool-Represents medium medium-IsRing zeros)
