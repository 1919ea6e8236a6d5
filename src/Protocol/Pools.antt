-- ===== src/Protocol/Pools.antt =====
-- A request to servers that draw their tuples from their pools.
use cip_pir.Base.{
  ℕ, ◌+◌, ◌-◌, ◌*◌, ◌<◌, ◌≤◌, ◌≡◌, arith, ap, ◌∙◌, sym, List, some, inl, inr, at, if◌then◌else◌,
  ltb,
}
use cip_pir.Base.Memory.{Buffer, advance}
use cip_pir.Base.Order.{IsOrder}
use cip_pir.Config.{Config, IsConfig, seed_bytes, groups}
use cip_pir.Server.{Crypto, DbFile, precompute_block}
use cip_pir.Server.Database.{Holds}
use cip_pir.Tables.{IsTable}
use cip_pir.Seeds.{Pool, next_seed}
use cip_pir.Seeds.Slots.{IsRing, tuple_size}
use cip_pir.Seeds.Queue.{Queue, Represents, tuple_of, next_seed-Represents}
use cip_pir.Control.Routes.{some-same}
use cip_pir.Center.Invariant.{IsMade}
use cip_pir.Client.{Client}
use cip_pir.Protocol.{Peer, request}
use cip_pir.Protocol.Retrieval.{IsReady, request_returns_block}

behind_seed :
    (c : Config) (seed block : Buffer) (j : ℕ) → tuple_of c seed block (seed_bytes c + j) ≡ block j
behind_seed c seed block j = not_in_seed (seed_bytes c) j ∙ ap block (omega arith)
  where
    not_in_seed :
        (n j : ℕ) → (if ltb (n + j) n then seed (n + j) else block (n + j - n)) ≡ block (n + j - n)
    not_in_seed n j = ground arith

module _ (c : Config) (v : IsConfig c) (k : Crypto) (f : DbFile) (fe_size : ℕ) where
  -- A server has loaded file `f`; its pool holds a queue of tuples, of which the oldest is a seed
  -- with the block that `precompute` makes for it; and the server takes part in the request with
  -- that seed and with the block that `nextSeed` copies.
  pub record IsDrawn (id : ℕ) (id_in : id < c.servers) (peer : Peer) : Type 0 where
    pub key : Buffer
    pub holds : Holds c v id id_in f fe_size peer.db key
    pub pool : Pool
    pub queue : Queue
    pub represents : Represents c pool queue
    pub some_tuple : 1 ≤ queue.count
    pub oldest : IsMade c k peer.db id (queue.tuple_at 0)
    pub fresh : Buffer
    pub rest : Pool
    pub drawn : Buffer
    pub draws : next_seed c fresh pool ≡ some (drawn, rest)
    pub its_seed : peer.tuple.seed ≡ oldest.0
    pub its_block : peer.tuple.block ≡ advance drawn (seed_bytes c)

  module _ (ring : IsRing c) where
    -- What `nextSeed` copies is the oldest tuple.
    drawn_tuple :
        (pool rest : Pool) (queue : Queue) (fresh drawn : Buffer)
        → Represents c pool queue
        → 1 ≤ queue.count
        → next_seed c fresh pool ≡ some (drawn, rest)
        → (j : ℕ) → j < tuple_size c
        → drawn j ≡ queue.tuple_at 0 j
    drawn_tuple pool rest queue fresh drawn r h e j l =
        elim (next_seed-Represents c ring pool queue r fresh) [
          | inl (empty, waits) ↦ absurd (omega (arith, empty))
          | inr (some_tuple, t, left, draws, same, holds) ↦
              ap (λ d. d.0 j) (some-same (sym e ∙ draws)) ∙ same j l
        ]

    pub IsDrawn-IsReady :
        (id : ℕ) (id_in : id < c.servers) (peer : Peer)
        → IsDrawn id id_in peer
        → IsReady c v k f fe_size id id_in peer
    IsDrawn-IsReady id id_in peer d = record {
      key = d.key;
      holds = d.holds;
      paired = λ j l.
          let (seed, made) = d.oldest in
          ap (λ b. b j) d.its_block
          ∙ drawn_tuple d.pool d.rest d.queue d.fresh d.drawn d.represents d.some_tuple d.draws
              (seed_bytes c + j) (omega arith)
          ∙ made (seed_bytes c + j) (omega arith)
          ∙ behind_seed c (at seed) (precompute_block c k peer.db id seed) j
          ∙ ap (λ s. precompute_block c k peer.db id s j) (sym d.its_seed);
    }

    -- A request for block `index` returns that block, byte by byte, if every server has loaded the
    -- same preprocessed file and draws from a pool whose oldest tuple is a seed with the block that
    -- `precompute` makes for it; in whatever order the seeds and the answers come in.
    pub request-next_seed :
        (peers : ℕ → Peer) (blocks : ℕ → Buffer)
        → IsTable c (advance f.body (1 + fe_size + fe_size)) blocks
        → ((id : ℕ) (id_in : id < c.servers) → IsDrawn id id_in (peers id))
        → (index : ℕ) → index < groups c * 8
        → (seeds_order answers_order : List ℕ) (s : Client) (j : ℕ) → IsOrder c.servers seeds_order
        → IsOrder c.servers answers_order
        → j < c.block_size
        → (request c k peers seeds_order answers_order index s).result_buf j ≡ blocks index j
    request-next_seed peers blocks preprocessed drawn index index_in seeds_order answers_order s j
          once once' h =
        request_returns_block c v k peers f fe_size blocks preprocessed
          (λ id id_in. IsDrawn-IsReady id id_in (peers id) (drawn id id_in)) index index_in
          seeds_order answers_order s j once once' h
