-- ===== src/Feed.antt =====
-- `precompute` of PeerServer/CIP_pirServer.cpp under USE_PRECOMPUTATION_SERVER: a peer server that
-- lets the center server make its tuples. A message is what the socket's `read` gives, or `none` if
-- it fails.
pub mod Fills
pub mod Stream
pub mod Sent
use cip_pir.Base.{ℕ, zero, suc, ◌+◌, ◌<◌, Option, none, some, Bool, true, false, List, [], ◌∷◌}
use cip_pir.Base.{u32, dec_lt, if◌then◌else◌}
use cip_pir.Base.Memory.{Buffer, advance, copy}
use cip_pir.Config.{Config, seed_bytes}
use cip_pir.Seeds.{Pool, next_slot}

-- The pool, the flag `threadTerminated`, and the messages to the center server.
pub record Fed : Type 0 where
  pub pool : Pool
  pub terminated : Bool
  pub sent : List (ℕ × ℕ)

-- How many bytes of the connection the reads before read `i` have taken, if read `t` takes
-- `sizes t` bytes.
unfoldable pub taken : (ℕ → ℕ) → ℕ → ℕ
taken sizes zero = 0
taken sizes (suc i) = taken sizes i + sizes i

-- What read `i` gives. `transfer_at_least` lets it take more bytes than a tuple has, and `recBuff`,
-- in which they are, is a new one in each round.
abbrev pub stream_message : Buffer → (ℕ → ℕ) → ℕ → Buffer
stream_message stream sizes i = advance stream (taken sizes i)

module _ (c : Config) where
  -- The memory after a read: a failed one is only reported.
  abbrev pub received : Option Buffer → Pool → Buffer
  received message p = elim message [
    | some tuple ↦ copy p.memory p.current_pre_seed tuple (seed_bytes c + c.block_size)
    | none ↦ p.memory
  ]

  -- The body of the loop.
  pub receive_tuple : Option Buffer → Pool → Pool
  receive_tuple message p = record {
    memory = received message p;
    current_seed = p.current_seed;
    current_pre_seed = next_slot c p.current_pre_seed;
    available = u32 (p.available + 1);
  }

  -- The loop, from message `i` on. Each round counts a tuple, so the number of slots is enough
  -- fuel.
  pub receive_from : ℕ → (ℕ → Option Buffer) → ℕ → Pool → Pool
  unfolding receive_tuple
  receive_from zero messages i p = p
  receive_from (suc fuel) messages i p = elim (dec_lt p.available c.number_seeds) [
    | yes _ ↦ receive_from fuel messages (i + 1) (receive_tuple (messages i) p)
    | no _ ↦ p
  ]

  -- `precompute`: `starts` and `ends` say whether the writes of the first and the last request
  -- succeed. If one fails, the thread returns and leaves the flag as it has set it.
  pub precompute_remote : ℕ → (starts ends : Bool) → (ℕ → Option Buffer) → Pool → Fed
  unfolding receive_from
  precompute_remote id starts ends messages p =
      if starts
      then record {
        pool = receive_from c.number_seeds messages 0 p;
        terminated = ends;
        sent = (id, 1) ∷ (if ends then (id, 0) ∷ [] else []);
      }
      else record { pool = p; terminated = false; sent = [] }
