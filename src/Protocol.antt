-- ===== src/Protocol.antt =====
-- One request of a client: `request` and `runPIR` of Client/CIP_pirClient.cpp, with what a peer
-- server does in `conHandler::start` of PeerServer/ClientConnection.cpp. The network is taken to
-- deliver every message whole. The threads that the client starts for the servers run under its
-- mutex, in any order.
pub mod Sums
pub mod Retrieval
pub mod Pools
pub mod System
use cip_pir.Base.{ℕ, List, [], ◌∷◌}
use cip_pir.Base.Memory.{Buffer}
use cip_pir.Config.{Config}
use cip_pir.Server.{Crypto, execute}
use cip_pir.Client.{Client, init_request, handle_seed, start_pir, send_query, receive_results}

-- A (seed, value) pair of a server's pool.
pub record Tuple : Type 0 where
  pub seed : List ℕ
  pub block : Buffer

-- A server that takes part in a request: its database, the tuple that it draws from its pool, and
-- what `malloc` leaves in its query buffer.
pub record Peer : Type 0 where
  pub db : Buffer
  pub tuple : Tuple
  pub fresh : Buffer

module _ (c : Config) (k : Crypto) (peers : ℕ → Peer) where
  -- The threads that run `receiveSeed`.
  pub receive_seeds : List ℕ → Client → Client
  receive_seeds [] s = s
  receive_seeds (id ∷ order) s = receive_seeds order (handle_seed c k id (peers id).tuple.seed s)

  -- A server's side after the seed: it reads the query, and answers from its tuple's block.
  pub answer : ℕ → Client → Buffer
  answer id s =
      execute c (peers id).db id (peers id).tuple.block (send_query c id (peers id).fresh s)

  -- The threads that run `receiveResults`.
  pub receive_answers : List ℕ → Client → Client
  unfolding answer
  receive_answers [] s = s
  receive_answers (id ∷ order) s = receive_answers order (receive_results c (answer id s) s)

  -- `runPIR`
  pub run_pir : List ℕ → ℕ → Client → Client
  unfolding receive_answers
  run_pir answers_order index s = receive_answers answers_order (start_pir c index s)

  -- `request`
  pub request : List ℕ → List ℕ → ℕ → Client → Client
  unfolding receive_seeds run_pir
  request seeds_order answers_order index s =
      run_pir answers_order index (receive_seeds seeds_order (init_request c s))
