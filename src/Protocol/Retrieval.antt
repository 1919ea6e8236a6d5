-- ===== src/Protocol/Retrieval.antt =====
-- A request returns the block that was asked for.
use cip_pir.Base.{
  ℕ, zero, suc, ◌+◌, ◌-◌, ◌*◌, ◌/◌, ◌%◌, ◌^◌, ◌<◌, ◌≡◌, ap, ap₂, ◌∙◌, sym, fun_ext, bit_xor,
}
use cip_pir.Base.{List, [], ◌∷◌, arith, at, if◌then◌else◌, ◌==◌}
use cip_pir.Base.Memory.{Buffer, advance, IsBytes}
use cip_pir.Base.Sum.{
  xsum, xsum-ext, xsum-xor, xsum-add, xsum-zero, xsum-suc, xsum_single, xsum_zeros, sum-suc,
  sum-zero, xsum_bytes,
}
use cip_pir.Base.Xor.{bit_xor-zero, xor_assoc, xor_self, zero-bit_xor, byte-xor-lt}
use cip_pir.Base.Order.{AllBelow, IsOrder, xlist, xlist-cons, xlist-nil, xlist-order, order_members}
use cip_pir.Config.{Config, IsConfig, groups}
use cip_pir.Chunks.{server_map}
use cip_pir.Chunks.Laws.{sum-server_map}
use cip_pir.Kernels.Groups.{entry}
use cip_pir.Walk.Laws.{before, before-suc}
use cip_pir.Tables.{IsTable, combination, combination-zero, combination-unit}
use cip_pir.Server.{Crypto, DbFile, precompute_block}
use cip_pir.Server.Database.{Holds, before-le}
use cip_pir.Server.Answers.{execute_lem}
use cip_pir.Client.{Client, init_request, handle_seed, start_pir, receive_results, send_query}
use cip_pir.Client.Query.{
  contribution, handle_seed_lem, init_request_lem, start_pir_lem, receive_results_lem,
  query_buf-receive_results, send_query-cong, send_query_lem, unit-lt,
}
use cip_pir.Protocol.{Peer, receive_seeds, answer, receive_answers, run_pir, request}
use cip_pir.Protocol.Sums.{total, total-xor, contribution-lt, precompute_block-total}

-- A sum over all groups is a sum over the chunks.
chunk_sums :
    (m : List ℕ) (n : ℕ) (h : ℕ → ℕ)
    → xsum n (λ id. xsum (at m id) (λ t. h (before m id + t))) ≡ xsum (before m n) h
chunk_sums m zero h = xsum-zero _ ∙ sym (xsum-zero h) ∙ ap (λ k. xsum k h) (sym (sum-zero (at m)))
chunk_sums m (suc n) h =
    xsum-suc n _
    ∙ ap (λ s. bit_xor s (xsum (at m n) (λ t. h (before m n + t)))) (chunk_sums m n h)
    ∙ sym (xsum-add (before m n) (at m n) h)
    ∙ ap (λ k. xsum k h) (sym (sum-suc n (at m)))

-- The share of every server, added up, is the sum of the shares.
total-xsum :
    (blocks : ℕ → Buffer) (n s : ℕ) (shares : ℕ → Buffer) (j : ℕ)
    → total blocks n (λ g. xsum s (λ id. shares id g)) j
      ≡ xsum s (λ id. total blocks n (shares id) j)
total-xsum blocks n zero shares j =
    xsum_zeros n _
      (λ g h. ap (λ w. combination blocks g w j) (xsum-zero _) ∙ combination-zero blocks g j)
    ∙ sym (xsum-zero _)
total-xsum blocks n (suc s) shares j =
    xsum-ext n _ _ (λ g h. ap (λ w. combination blocks g w j) (xsum-suc s _))
    ∙ total-xor blocks n (λ g. xsum s (λ id. shares id g)) (shares s) j
    ∙ ap (λ t. bit_xor t (total blocks n (shares s) j)) (total-xsum blocks n s shares j)
    ∙ sym (xsum-suc s _)

-- A server is ready for a request: it has loaded file `f`, and the tuple that it draws is a seed
-- with the block that `precompute` made for it.
pub record IsReady (c : Config) (v : IsConfig c) (k : Crypto) (f : DbFile) (fe_size id : ℕ)
    (id_in : id < c.servers) (peer : Peer) : Type 0 where
  pub key : Buffer
  pub holds : Holds c v id id_in f fe_size peer.db key
  pub paired :
      (j : ℕ)
      → j < c.block_size
      → peer.tuple.block j ≡ precompute_block c k peer.db id peer.tuple.seed j

module _ (c : Config) (v : IsConfig c) (k : Crypto) (peers : ℕ → Peer) where
  abbrev share : ℕ → ℕ → ℕ
  share id g = contribution c id k (peers id).tuple.seed g

  receive_seeds_lem :
      (order : List ℕ) (s : Client) (g : ℕ)
      → AllBelow c.servers order
      → (receive_seeds c k peers order s).query_buf g
        ≡ bit_xor (s.query_buf g) (xlist (λ id. share id g) order)
  unfolding receive_seeds
  receive_seeds_lem [] s g h = sym (ap (bit_xor (s.query_buf g)) (xlist-nil _) ∙ bit_xor-zero _)
  receive_seeds_lem (id ∷ order) s g (p, h) =
      receive_seeds_lem order (handle_seed c k id (peers id).tuple.seed s) g h
      ∙ ap (λ t. bit_xor t (xlist (λ id. share id g) order))
          (handle_seed_lem c v id p k (peers id).tuple.seed s g)
      ∙ xor_assoc (s.query_buf g) (share id g) _
      ∙ ap (bit_xor (s.query_buf g)) (sym (xlist-cons (λ id. share id g) id order))

  answer-cong :
      (id : ℕ) (s s' : Client) (j : ℕ)
      → s.query_buf ≡ s'.query_buf
      → answer c k peers id s j ≡ answer c k peers id s' j
  unfolding answer
  answer-cong id s s' j e = rw (send_query-cong c id (peers id).fresh s s' e)

  receive_answers_lem :
      (order : List ℕ) (s : Client) (j : ℕ)
      → j < c.block_size
      → (receive_answers c k peers order s).result_buf j
        ≡ bit_xor (s.result_buf j) (xlist (λ id. answer c k peers id s j) order)
  unfolding receive_answers
  receive_answers_lem [] s j h = sym (ap (bit_xor (s.result_buf j)) (xlist-nil _) ∙ bit_xor-zero _)
  receive_answers_lem (id ∷ order) s j h =
      let s' = receive_results c (answer c k peers id s) s in
      receive_answers_lem order s' j h
      ∙ ap₂ bit_xor (receive_results_lem c (answer c k peers id s) s j h) (
          ap (λ a. xlist a order)
            (fun_ext
              λ i. answer-cong i s' s j (query_buf-receive_results c (answer c k peers id s) s)))
      ∙ xor_assoc (s.result_buf j) (answer c k peers id s j) _
      ∙ ap (bit_xor (s.result_buf j)) (sym (xlist-cons (λ i. answer c k peers i s j) id order))

  module _ (f : DbFile) (fe_size : ℕ) (blocks : ℕ → Buffer)
      (preprocessed : IsTable c (advance f.body (1 + fe_size + fe_size)) blocks)
      (ready : (id : ℕ) (id_in : id < c.servers)
        → IsReady c v k f fe_size id id_in (peers id)) where
    -- The answer of one server: its share, and the groups of its own chunk under the query.
    answer_lem :
        (id : ℕ) (id_in : id < c.servers) (s : Client) (j : ℕ)
        → IsBytes s.query_buf
        → j < c.block_size
        → answer c k peers id s j
          ≡ bit_xor (total blocks (groups c) (share id) j) (
              xsum (at (server_map c) id) (λ t.
                combination blocks
                  (before (server_map c) id + t)
                  (s.query_buf (before (server_map c) id + t))
                  j))
    unfolding answer
    answer_lem id id_in s j bytes h =
        execute_lem c v id id_in f fe_size peer.holds block (send_query c id (peers id).fresh s) j
          (λ t p. rw (sent t p) (bytes _)) h
        ∙ ap₂ bit_xor
            (peer.paired j h
              ∙ precompute_block-total c v id id_in k (peers id).tuple.seed blocks f fe_size
                  peer.holds preprocessed j h)
            (xsum-ext _ _ _ λ t p.
              ap (λ w. entry c (advance f.body (1 + fe_size + fe_size)) (at_group t) w j) (sent t p)
              ∙ preprocessed.entries (at_group t) (s.query_buf (at_group t)) j
                  (omega
                    (arith, before-suc (server_map c) id, before-le c v (id + 1) (omega arith)))
                  (bytes (at_group t)) h)
      where
        peer : IsReady c v k f fe_size id id_in (peers id)
        peer = ready id id_in

        block : Buffer
        block = (peers id).tuple.block

        at_group : ℕ → ℕ
        at_group t = before (server_map c) id + t

        sent :
            (t : ℕ)
            → t < at (server_map c) id
            → send_query c id (peers id).fresh s t ≡ s.query_buf (at_group t)
        sent t p = send_query_lem c v id (peers id).fresh s t id_in p

    -- All answers together: the shares, and all groups under the query.
    answers_lem :
        (s : Client) (j : ℕ)
        → IsBytes s.query_buf
        → j < c.block_size
        → xsum c.servers (λ id. answer c k peers id s j)
          ≡ bit_xor
              (total blocks (groups c) (λ g. xsum c.servers (λ id. share id g)) j)
              (total blocks (groups c) s.query_buf j)
    answers_lem s j bytes h =
        xsum-ext c.servers _ _ (λ id p. answer_lem id p s j bytes h)
        ∙ xsum-xor c.servers _ _
        ∙ ap₂ bit_xor (sym (total-xsum blocks (groups c) c.servers share j)) (
            chunk_sums (server_map c) c.servers (λ g. combination blocks g (s.query_buf g) j)
            ∙ ap (λ n. total blocks n s.query_buf j) (sum-server_map c v))

    module _ (index : ℕ) (index_in : index < groups c * 8) where
      -- The query of the wanted block alone.
      abbrev unit : ℕ → ℕ
      unit g = if g == index / 8 then 2 ^ (7 - index % 8) else 0

      unit-total : (j : ℕ) → total blocks (groups c) unit j ≡ blocks index j
      unit-total j =
          xsum_single (groups c) (index / 8) _ (omega arith) (λ g p ne.
            ap (λ w. combination blocks g w j) (ground arith) ∙ combination-zero blocks g j)
          ∙ ap (λ w. combination blocks (index / 8) w j) (ground arith)
          ∙ combination-unit blocks (index / 8) (index % 8) j (omega arith)
          ∙ ap (λ b. blocks b j) (omega arith)

      unit-IsBytes : IsBytes unit
      unit-IsBytes g = ground (arith, unit-lt (index % 8) (omega arith))

      shares : ℕ → ℕ
      shares g = xsum c.servers (λ id. share id g)

      query_lem :
          (seeds_order : List ℕ) (s : Client) (g : ℕ)
          → IsOrder c.servers seeds_order
          → (start_pir c index (receive_seeds c k peers seeds_order (init_request c s))).query_buf g
            ≡ bit_xor (shares g) (unit g)
      unfolding shares
      query_lem seeds_order s g once = order_members c.servers once λ members.
          (start_pir_lem c index (receive_seeds c k peers seeds_order (init_request c s)) g).0
          ∙ ap (λ t. bit_xor t (unit g))
              (receive_seeds_lem seeds_order (init_request c s) g members
                ∙ ap₂ bit_xor (init_request_lem c s g)
                    (xlist-order c.servers once (λ id. share id g))
                ∙ zero-bit_xor _)

      -- A request for block `index` returns that block, byte by byte, if all servers have loaded
      -- the same preprocessed file and every tuple that they draw holds the block of its seed. It
      -- does so in whatever order the seeds and the answers come in.
      pub request_returns_block :
          (seeds_order answers_order : List ℕ) (s : Client) (j : ℕ)
          → IsOrder c.servers seeds_order
          → IsOrder c.servers answers_order
          → j < c.block_size
          → (request c k peers seeds_order answers_order index s).result_buf j ≡ blocks index j
      unfolding request run_pir shares
      request_returns_block seeds_order answers_order s j once once' h =
          receive_answers_lem answers_order asked j h
          ∙ ap₂ bit_xor (start_pir_lem c index collected j).1 (
              xlist-order c.servers once' (λ id. answer c k peers id asked j)
              ∙ answers_lem asked j bytes h
              ∙ ap (bit_xor (total blocks (groups c) shares j)) asked_total)
          ∙ zero-bit_xor _
          ∙ sym (xor_assoc (total blocks (groups c) shares j) _ _)
          ∙ ap (λ t. bit_xor t (blocks index j)) (xor_self _)
          ∙ zero-bit_xor _
        where
          collected : Client
          collected = receive_seeds c k peers seeds_order (init_request c s)

          asked : Client
          asked = start_pir c index collected

          asked_query : asked.query_buf ≡ (λ g. bit_xor (shares g) (unit g))
          asked_query = fun_ext λ g. query_lem seeds_order s g once

          shares-lt : (g : ℕ) → shares g < 256
          shares-lt g =
              xsum_bytes c.servers _
                (λ id p. contribution-lt c v id p k (peers id).tuple.seed blocks g)

          bytes : IsBytes asked.query_buf
          bytes g =
              rw (query_lem seeds_order s g once) (byte-xor-lt _ _ (shares-lt g) (unit-IsBytes g))

          asked_total :
              total blocks (groups c) asked.query_buf j
              ≡ bit_xor (total blocks (groups c) shares j) (blocks index j)
          asked_total =
              ap (λ q. total blocks (groups c) q j) asked_query
              ∙ total-xor blocks (groups c) shares unit j
              ∙ ap (bit_xor (total blocks (groups c) shares j)) (unit-total j)

      -- The same for `runPIR` after the seeds.
      pub run_pir_returns_block :
          (seeds_order answers_order : List ℕ) (s : Client) (j : ℕ)
          → IsOrder c.servers seeds_order
          → IsOrder c.servers answers_order
          → j < c.block_size
          → (run_pir c k peers answers_order index
                (receive_seeds c k peers seeds_order (init_request c s))).result_buf
              j
            ≡ blocks index j
      unfolding request
      run_pir_returns_block seeds_order answers_order s j once once' h =
          request_returns_block seeds_order answers_order s j once once' h
