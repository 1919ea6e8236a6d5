-- ===== src/Client/Query.antt =====
-- What `handleSeed` adds to the query buffer, and what `sendQuery` cuts out of it.
use cip_pir.Base.{ℕ, ◌+◌, ◌-◌, ◌*◌, ◌/◌, ◌%◌, ◌^◌, ◌≤◌, ◌<◌, min, ◌≡◌, refl, ap, ◌∙◌, sym, bit_xor}
use cip_pir.Base.{
  List, ◌==◌, all_below, passes_from, all_below_sound, true, ltb→lt, arith, u32, if◌then◌else◌, ltb,
  leb, ◌&&◌, at, Bool-cases, inl, inr,
}
use cip_pir.Base.Memory.{through, Buffer, advance}
use cip_pir.Base.Sum.{sum-zero}
use cip_pir.Base.Xor.{bit_xor-zero, xor_assoc}
use cip_pir.Config.{Config, IsConfig, groups, group_size}
use cip_pir.Chunks.{server_map, client_map}
use cip_pir.Chunks.Laws.{client_agrees}
use cip_pir.Kernels.{xor_bytes}
use cip_pir.Kernels.Blocks.{xor_bytes_lem}
use cip_pir.Walk.{walk_left}
use cip_pir.Walk.Laws.{before, before-suc, before_mono, walk_right_lem, walk_left_lem}
use cip_pir.Server
use cip_pir.Server.{Crypto}
use cip_pir.Server.Database.{
  Exact-u32, before-le, left_chunks, right_chunks, groups_right_lem, groups_left_lem,
}
use cip_pir.Client.{
  Client, groups_right, groups_left, skip_groups, init_request, handle_seed, start_pir,
  receive_results, send_query,
}

-- `xorBytes` as an exclusive or with zeros outside its range.
xor_bytes_total :
    (dest src : Buffer) (n g : ℕ)
    → xor_bytes dest src n g ≡ bit_xor (dest g) (if ltb g n then src g else 0)
xor_bytes_total dest src n g = ground (arith, xor_bytes_lem dest src n g, bit_xor-zero (dest g))

xor_bytes-through :
    (buf query : Buffer) (skip n g : ℕ)
    → through buf skip (λ p. xor_bytes p query n) g
      ≡ bit_xor (buf g) (if leb skip g && ltb g (skip + n) then query (g - skip) else 0)
xor_bytes-through buf query skip n g = elim (Bool-cases (leb skip g)) [
  | inl behind ↦
      let back : skip + (g - skip) ≡ g = ground arith in
      ground (
        arith,
        xor_bytes_total (advance buf skip) query n (g - skip),
        ap buf back,
        bit_xor-zero (buf g),
      )
  | inr before ↦ ground (arith, bit_xor-zero (buf g))
]

-- Two exclusive ors at two places of a buffer.
two_places :
    (buf query : Buffer) (skip right left g : ℕ)
    → xor_bytes (through buf skip (λ p. xor_bytes p query right)) (advance query right) left g
      ≡ bit_xor (buf g) (
          bit_xor
            (if leb skip g && ltb g (skip + right) then query (g - skip) else 0)
            (if ltb g left then query (right + g) else 0))
two_places buf query skip right left g =
    xor_bytes_total _ (advance query right) left g
    ∙ ap (λ t. bit_xor t (if ltb g left then query (right + g) else 0))
        (xor_bytes-through buf query skip right g)
    ∙ xor_assoc (buf g) _ _

module _ (c : Config) (id : ℕ) where
  -- The query that a seed stands for, and its bytes at the groups of the whole database.
  abbrev pub seed_query : Crypto → List ℕ → Buffer
  seed_query k seed = k.gen_rnd_from_seed seed (groups_left c id + (groups_right c id).0)

  abbrev pub right_bytes : Buffer → ℕ → ℕ
  right_bytes query g =
      if leb (before (server_map c) (id + 1)) g
        && ltb g (before (server_map c) (id + 1) + (groups_right c id).0)
      then query (g - before (server_map c) (id + 1))
      else 0

  abbrev pub left_bytes : Buffer → ℕ → ℕ
  left_bytes query g = if ltb g (groups_left c id) then query ((groups_right c id).0 + g) else 0

  abbrev pub contribution : Crypto → List ℕ → ℕ → ℕ
  contribution k seed g =
      bit_xor (right_bytes (seed_query k seed) g) (left_bytes (seed_query k seed) g)

module _ (c : Config) (v : IsConfig c) where
  client_map-eq : (client_map c).0 ≡ server_map c
  client_map-eq = ap (λ p. p.0) (client_agrees c v).0

  -- The sum of all chunks below `n`, as the client's loops from chunk 0 compute it.
  prefix_walk :
      (n : ℕ) → n ≤ c.servers → walk_left u32 (client_map c).0 n 0 0 ≡ before (server_map c) n
  prefix_walk n h =
      let fits = before-le c v n h in
      let none_before = sum-zero (at (server_map c)) in
      let e = ap (before (server_map c)) (zero_add n) in
      rw client_map-eq (
        omega
          (arith, walk_left_lem u32 (server_map c) (groups c) (Exact-u32 c v) n 0 0 (omega arith)))
    where
      zero_add : (k : ℕ) → 0 + k ≡ k
      zero_add k = omega arith

  module _ (id : ℕ) (id_in : id < c.servers) where
    right_walk :
        ((groups_right c id).0 + before (server_map c) (id + 1)
          ≡ before (server_map c) (id + right_chunks c v id id_in))
        × ((groups_right c id).1 ≡ left_chunks c v id id_in)
    unfolding groups_right
    right_walk =
        let first = ap (before (server_map c)) (suc_id) in
        let last = ap (before (server_map c)) (end) in
        let fits = before-le c v (id + right_chunks c v id id_in) (omega arith) in
        rw client_map-eq (
          omega (
            arith,
            walk_right_lem u32 (server_map c) (groups c) (Exact-u32 c v) c.servers (c.chunks - 1)
                (1 + id) 0 (omega arith),
          ))
      where
        suc_id : 1 + id ≡ id + 1
        suc_id = omega arith

        end : 1 + id + min (c.chunks - 1) (c.servers - (1 + id)) ≡ id + right_chunks c v id id_in
        end = omega (arith, v.some_chunk)

    pub skip_groups_lem : skip_groups c id ≡ before (server_map c) (id + 1)
    unfolding skip_groups
    skip_groups_lem = prefix_walk (id + 1) (omega arith)

    -- The client and the server count the same groups to the left end of the map, and the server
    -- has its own chunk besides those that the client counts to the right.
    pub groups_left_agree : groups_left c id ≡ Server.groups_left c id
    unfolding groups_left
    groups_left_agree = rw (right_walk.1) (
        prefix_walk (left_chunks c v id id_in) (omega (arith, v.chunks_in))
        ∙ sym (groups_left_lem c v id id_in))

    pub groups_right_agree :
        (Server.groups_right c id).0 ≡ at (server_map c) id + (groups_right c id).0
    groups_right_agree =
        omega (arith, right_walk.0, groups_right_lem c v id id_in, before-suc (server_map c) id)

    -- The chunks that the client counts for a server are distinct groups.
    pub counted-le :
        (groups_left c id ≤ before (server_map c) id)
        × (before (server_map c) (id + 1) + (groups_right c id).0 ≤ groups c)
    counted-le = (
      rw (groups_left_agree, groups_left_lem c v id id_in)
          (before_mono (server_map c) (left_chunks c v id id_in) id (omega (arith, v.chunks_in))),
      omega (arith, right_walk.0, before-le c v (id + right_chunks c v id id_in) (omega arith)),
    )

    eighth : (n : ℕ) → n ≤ groups c → u32 (n * group_size) / 8 ≡ n
    eighth n h = omega (arith, v.small_groups)

    -- `handleSeed` adds the contribution of the seed to every byte of the query buffer.
    pub handle_seed_lem :
        (k : Crypto) (seed : List ℕ) (s : Client) (g : ℕ)
        → (handle_seed c k id seed s).query_buf g
          ≡ bit_xor (s.query_buf g) (contribution c id k seed g)
    unfolding handle_seed
    handle_seed_lem k seed s g =
        let small = v.small_groups in
        let (left_le, right_le) = counted-le in
        let own = before-le c v id (omega arith) in
        rw
          (
            eighth (groups_left c id) (omega arith),
            eighth (groups_right c id).0 (omega arith),
            Exact-u32 c v (groups_left c id + (groups_right c id).0)
                (omega (arith, before-suc (server_map c) id)),
            eighth (groups_left c id + (groups_right c id).0)
                (omega (arith, before-suc (server_map c) id)),
            skip_groups_lem,
            eighth (before (server_map c) (id + 1)) (omega arith),
          )
          (two_places s.query_buf (seed_query c id k seed) (before (server_map c) (id + 1))
            (groups_right c id).0 (groups_left c id) g)

  -- `sendQuery` sends a server the bytes of the query buffer for its own chunk.
  pub send_query_lem :
      (id : ℕ) (fresh : Buffer) (s : Client) (g : ℕ)
      → id < c.servers
      → g < at (server_map c) id
      → send_query c id fresh s g ≡ s.query_buf (before (server_map c) id + g)
  unfolding send_query
  send_query_lem id fresh s g h p = rw (prefix_walk id (omega arith), client_map-eq) (ground arith)

unit_table : all_below 8 (λ i. ltb (2 ^ (7 - i)) 256) ≡ true
unfolding passes_from
unit_table = refl

pub unit-lt : (i : ℕ) → i < 8 → 2 ^ (7 - i) < 256
unit-lt i h = ltb→lt _ _ (all_below_sound 8 _ i unit_table h)

module _ (c : Config) where
  -- `initRequest` clears the query, and `runPIR` flips one bit of it and clears the result.
  pub init_request_lem : (s : Client) (g : ℕ) → (init_request c s).query_buf g ≡ 0
  unfolding init_request
  init_request_lem s g = refl

  pub start_pir_lem :
      (index : ℕ) (s : Client) (g : ℕ)
      → ((start_pir c index s).query_buf g
          ≡ bit_xor (s.query_buf g) (if g == index / 8 then 2 ^ (7 - index % 8) else 0))
        × ((start_pir c index s).result_buf g ≡ 0)
  unfolding start_pir
  start_pir_lem index s g =
      (ground (arith, unit-lt (index % 8) (omega arith), bit_xor-zero (s.query_buf g)), refl)

  -- A result goes into the result buffer, and leaves the query alone.
  pub receive_results_lem :
      (answer : Buffer) (s : Client) (j : ℕ)
      → j < c.block_size
      → (receive_results c answer s).result_buf j ≡ bit_xor (s.result_buf j) (answer j)
  unfolding receive_results
  receive_results_lem answer s j h =
      ground (arith, xor_bytes_lem s.result_buf answer c.block_size j)

  pub query_buf-receive_results :
      (answer : Buffer) (s : Client) → (receive_results c answer s).query_buf ≡ s.query_buf
  unfolding receive_results
  query_buf-receive_results answer s = refl

  -- What is sent depends on the query buffer only.
  pub send_query-cong :
      (id : ℕ) (fresh : Buffer) (s s' : Client)
      → s.query_buf ≡ s'.query_buf
      → send_query c id fresh s ≡ send_query c id fresh s'
  unfolding send_query
  send_query-cong id fresh s s' e = rw e
