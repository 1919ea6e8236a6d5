-- ===== src/Server/Answers.antt =====
-- What `precompute` puts behind a seed and what `execute` answers, in terms of the table in the
-- file that the server has loaded.
use cip_pir.Base.{ℕ, ◌+◌, ◌-◌, ◌*◌, ◌≤◌, ◌<◌, ◌≡◌, ap, ap₂, ◌∙◌, bit_xor}
use cip_pir.Base.{◌⊎◌, inl, inr, List, arith, u32, at, length, ℕ_discrete}
use cip_pir.Base.Memory.{Buffer, advance, zeros}
use cip_pir.Base.Sum.{xsum, xsum-ext, xsum-add}
use cip_pir.Base.Xor.{zero-bit_xor}
use cip_pir.Config.{Config, IsConfig, groups, pre_offset}
use cip_pir.Chunks.{server_map}
use cip_pir.Chunks.Laws.{length-server_map}
use cip_pir.Kernels.Groups.{entry, fastxor_lem}
use cip_pir.Walk.{walk_round}
use cip_pir.Walk.Laws.{before, before-suc, before_mono, walk_round_lem}
use cip_pir.Server.{
  DbFile, Crypto, groups_right, groups_left, groups_to_generate, bytes_to_generate,
  precompute_block, execute,
}
use cip_pir.Server.Database.{
  Holds, Exact-u32, before-le, left_chunks, right_chunks, groups_right_lem, groups_left_lem,
}

module _ (c : Config) (v : IsConfig c) (id : ℕ) (id_in : id < c.servers) where
  abbrev m : List ℕ
  m = server_map c

  -- The groups to the right of the server's own chunk.
  abbrev pub rest_right : ℕ
  rest_right = (groups_right c id).0 - at m id

  own-le : at m id ≤ (groups_right c id).0
  own-le = omega (
    arith,
    groups_right_lem c v id id_in,
    before-suc m id,
    v.some_chunk,
    before_mono m (id + 1) (id + right_chunks c v id id_in) (omega (arith, v.some_chunk)),
  )

  groups_to_generate_lem : groups_to_generate c id ≡ rest_right + groups_left c id
  unfolding groups_to_generate
  groups_to_generate_lem =
      let a = right_chunks c v id id_in - 1 in
      let b = left_chunks c v id id_in in
      let count : c.chunks - 1 ≡ a + b = omega (arith, v.some_chunk) in
      let end = ap (before m) end_lem in
      let right = groups_right_lem c v id id_in in
      let left = groups_left_lem c v id id_in in
      let small = before-le c v (id + right_chunks c v id id_in) (omega arith) in
      let less = before_mono m b id (omega (arith, v.chunks_in)) in
      let all = length-server_map c v in
      let own = before-suc m id in
      ap (λ n. walk_round u32 m id n 1 0) count
      ∙ omega (
        arith,
        own-le,
        walk_round_lem u32 m (groups c) (Exact-u32 c v) id a b 1 (omega (arith, v.some_chunk))
            (stop (ℕ_discrete b 0)) (omega (arith, v.chunks_in)) (omega arith),
      )
    where
      end_lem : id + 1 + (right_chunks c v id id_in - 1) ≡ id + right_chunks c v id id_in
      end_lem = omega (arith, v.some_chunk)

      stop :
          Dec (left_chunks c v id id_in ≡ 0)
          → (left_chunks c v id id_in ≡ 0) ⊎ (id + 1 + (right_chunks c v id id_in - 1) ≡ length m)
      stop (yes e) = inl e
      stop (no ne) = inr (omega (arith, v.some_chunk, length-server_map c v))

  -- `precompute` makes one query byte for each group that the server holds beside its own chunk.
  pub bytes_to_generate_lem : bytes_to_generate c id ≡ rest_right + groups_left c id
  bytes_to_generate_lem =
      let right = groups_right_lem c v id id_in in
      let left = groups_left_lem c v id id_in in
      let small = before-le c v (id + right_chunks c v id id_in) (omega arith) in
      let less = before_mono m (left_chunks c v id id_in) id (omega (arith, v.chunks_in)) in
      omega (arith, v.small_groups, groups_to_generate_lem)

  module _ (f : DbFile) (fe_size : ℕ) {db key : Buffer}
      (held : Holds c v id id_in f fe_size db key) where
    -- The table behind the key in the file.
    abbrev pub table : Buffer
    table = advance f.body (1 + fe_size + fe_size)

    -- The block behind a seed is the `^` of one entry of the table for each group of the other
    -- chunks of the server: those to the right of its own chunk, and those from the left end.
    pub precompute_block_lem :
        (k : Crypto) (seed : List ℕ) (j : ℕ)
        → j < c.block_size
        → let query = k.gen_rnd_from_seed seed (rest_right + groups_left c id) in
          precompute_block c k db id seed j
          ≡ bit_xor
              (xsum rest_right (λ t. entry c table (before m (id + 1) + t) (query t) j))
              (xsum (groups_left c id) (λ t. entry c table t (query (rest_right + t)) j))
    unfolding precompute_block
    precompute_block_lem k seed j h = rw bytes_to_generate_lem (
        fastxor_lem c zeros (advance db (at m id * 256 * c.block_size)) query n j h
        ∙ zero-bit_xor _
        ∙ xsum-add rest_right (groups_left c id) _
        ∙ ap₂ bit_xor (xsum-ext rest_right _ _ right) (xsum-ext (groups_left c id) _ _ left))
      where
        n : ℕ
        n = rest_right + groups_left c id

        query : Buffer
        query = k.gen_rnd_from_seed seed n

        shifted :
            at m id * pre_offset c + rest_right * pre_offset c
            ≡ (groups_right c id).0 * pre_offset c
        shifted = omega (arith, ap (λ (g : ℕ). g * pre_offset c) parts)
          where
            parts : at m id + rest_right ≡ (groups_right c id).0
            parts = omega (arith, own-le)

        right :
            (t : ℕ)
            → t < rest_right
            → entry c (advance db (at m id * 256 * c.block_size)) t (query t) j
              ≡ entry c table (before m (id + 1) + t) (query t) j
        right t p =
            ap db (omega arith)
            ∙ held.right_part (at m id + t) (query t) j (omega arith) (k.gen_bytes seed n t) h
            ∙ ap (λ g. entry c table g (query t) j) (omega (arith, before-suc m id))

        left :
            (t : ℕ)
            → t < groups_left c id
            → entry c
                (advance db (at m id * 256 * c.block_size))
                (rest_right + t)
                (query (rest_right + t))
                j
              ≡ entry c table t (query (rest_right + t)) j
        left t p =
            ap db (omega (arith, shifted))
            ∙ held.left_part t (query (rest_right + t)) j p (k.gen_bytes seed n (rest_right + t)) h

    -- The answer to a query of bytes is what stood behind the seed, and one entry of the table for
    -- each group of the server's own chunk.
    pub execute_lem :
        (dest query : Buffer) (j : ℕ)
        → ((g : ℕ) → g < at m id → query g < 256)
        → j < c.block_size
        → execute c db id dest query j
          ≡ bit_xor (dest j) (xsum (at m id) (λ t. entry c table (before m id + t) (query t) j))
    unfolding execute
    execute_lem dest query j bytes h =
        fastxor_lem c dest db query (at m id) j h
        ∙ ap (bit_xor (dest j)) (
            xsum-ext (at m id) _ _
              λ t p. held.right_part t (query t) j (omega (arith, own-le)) (bytes t p) h)
