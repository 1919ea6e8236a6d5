-- ===== src/Protocol/System.antt =====
-- A request to servers whose tuples a center server has made: from the workers of the center
-- server, over the connections and the pools of the peer servers, to the client.
use cip_pir.Base.{ℕ, ◌+◌, ◌*◌, ◌<◌, ◌≤◌, ◌≡◌, arith, refl, ap, ◌∙◌, List, some, Bool, true}
use cip_pir.Base.Memory.{Buffer, advance}
use cip_pir.Base.Order.{IsOrder}
use cip_pir.Config.{Config, IsConfig, seed_bytes, groups}
use cip_pir.Server.{Crypto, DbFile}
use cip_pir.Server.Database.{Holds}
use cip_pir.Tables.{IsTable}
use cip_pir.Seeds.{Pool, empty_pool, next_seed}
use cip_pir.Seeds.Slots.{IsRing, tuple_size}
use cip_pir.Seeds.Queue.{Queue, empty_queue, empty_pool-Represents}
use cip_pir.Client.{Client}
use cip_pir.Feed.{Fed, stream_message, precompute_remote}
use cip_pir.Feed.Sent.{RunsCarefully-precompute_remote}
use cip_pir.Transfers.{Station}
use cip_pir.Transfers.Careful.{made_of, RunsCarefully}
use cip_pir.Protocol.{Peer, request}
use cip_pir.Protocol.Pools.{IsDrawn, request-next_seed}

module _ (c : Config) (v : IsConfig c) (k : Crypto) (f : DbFile) (fe_size : ℕ) where
  -- What a peer server has after `precompute`, from an empty pool and the bytes `stream`.
  abbrev pub fed_from : ℕ → Bool → Buffer → Buffer → Fed
  fed_from id ends stream memory =
      precompute_remote c id true ends (λ i. some (stream_message stream (λ t. tuple_size c + 0) i))
        (empty_pool c memory)

  -- A server has loaded file `f`, and so has the worker that makes its tuples. The worker has made
  -- a careful run and has written as many tuples as the pool has slots; the connection has these
  -- bytes, and each read takes one tuple. The server takes part in the request with the tuple that
  -- it draws after that, whose seed is the one that the worker stored first.
  pub record IsFed (id : ℕ) (id_in : id < c.servers) (peer : Peer) : Type 0 where
    pub key : Buffer
    pub holds : Holds c v id id_in f fe_size peer.db key
    pub worker_memory : Buffer
    pub worker_buffers : ℕ → Buffer
    pub log : Queue
    pub station : Station
    pub run : RunsCarefully c k peer.db id worker_memory worker_buffers log station
    pub enough : c.number_seeds ≤ station.sent.count
    pub stream : Buffer
    pub arrives :
        (n j : ℕ)
        → n < station.sent.count
        → j < tuple_size c
        → stream (n * tuple_size c + j) ≡ station.sent.tuple_at n j
    pub ends : Bool
    pub memory : Buffer
    pub fresh : Buffer
    pub drawn : Buffer
    pub rest : Pool
    pub draws : next_seed c fresh (fed_from id ends stream memory).pool ≡ some (drawn, rest)
    pub its_seed : log.tuple_at 0 ≡ made_of c k peer.db id peer.tuple.seed
    pub its_block : peer.tuple.block ≡ advance drawn (seed_bytes c)

  module _ (ring : IsRing c) where
    IsFed-IsDrawn :
        (id : ℕ) (id_in : id < c.servers) (peer : Peer)
        → IsFed id id_in peer
        → IsDrawn c v k f fe_size id id_in peer
    IsFed-IsDrawn id id_in peer d =
        let (queue, represents, full, old, new) =
          RunsCarefully-precompute_remote c k peer.db id ring d.run d.ends d.stream
            (empty_pool c d.memory) empty_queue (empty_pool-Represents c ring d.memory) d.arrives
            (omega (arith, d.enough)) in
        record {
          key = d.key;
          holds = d.holds;
          pool = (fed_from id d.ends d.stream d.memory).pool;
          queue = queue;
          represents = represents;
          some_tuple = omega (arith, full, ring.some_slot);
          oldest = (
            peer.tuple.seed,
            λ j l.
                ap (λ n. queue.tuple_at n j) (omega arith)
                ∙ (new 0 (omega (arith, ring.some_slot))).1 j l
                ∙ ap (λ t. t j) d.its_seed,
          );
          fresh = d.fresh;
          rest = d.rest;
          drawn = d.drawn;
          draws = d.draws;
          its_seed = refl;
          its_block = d.its_block;
        }

    -- A request for block `index` returns that block, byte by byte, if every server has loaded the
    -- same preprocessed file and draws the first tuple of a pool that it has filled from a worker
    -- of the center server, as `IsFed` says; in whatever order the seeds and the answers come in.
    pub request-precompute_remote :
        (peers : ℕ → Peer) (blocks : ℕ → Buffer)
        → IsTable c (advance f.body (1 + fe_size + fe_size)) blocks
        → ((id : ℕ) (id_in : id < c.servers) → IsFed id id_in (peers id))
        → (index : ℕ) → index < groups c * 8
        → (seeds_order answers_order : List ℕ) (s : Client) (j : ℕ) → IsOrder c.servers seeds_order
        → IsOrder c.servers answers_order
        → j < c.block_size
        → (request c k peers seeds_order answers_order index s).result_buf j ≡ blocks index j
    request-precompute_remote peers blocks preprocessed fed index index_in seeds_order answers_order
          s j once once' h =
        request-next_seed c v k f fe_size ring peers blocks preprocessed
          (λ id id_in. IsFed-IsDrawn id id_in (peers id) (fed id id_in)) index index_in seeds_order
          answers_order s j once once' h
