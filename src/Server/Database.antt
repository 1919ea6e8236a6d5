-- ===== src/Server/Database.antt =====
-- What `readDB` loads.

use cip_pir.Base.{ℕ, ◌+◌, ◌-◌, ◌*◌, ◌^◌, ◌≤◌, ◌<◌, min, ◌≡◌, ap, ◌∙◌}
use cip_pir.Base.{some, true, arith, u32, u64, at}
use cip_pir.Base.Memory.{Buffer, advance, copy}
use cip_pir.Base.Sum.{sum-zero}
use cip_pir.Config.{Config, IsConfig, groups, group_size_p2, pre_offset}
use cip_pir.Chunks.{server_map}
use cip_pir.Chunks.Laws.{length-server_map, sum-server_map}
use cip_pir.Kernels.Groups.{entry, entry-lt}
use cip_pir.Walk.Laws.{before, before_mono, Exact, walk_right_lem, walk_left_lem, walk_back_lem}
use cip_pir.Server.{
  DbFile, loaded, header_fits, groups_right, groups_left, groups_to_ignore, loaded_key, loaded_db,
  read_db,
}

-- Two reads into a buffer, behind and before offset `r`.
reads-first :
    (buf first second : Buffer) (r l o : ℕ)
    → o < r
    → copy (copy buf r first l) 0 second r o ≡ second o
reads-first buf first second r l o h = ground arith

reads-second :
    (buf first second : Buffer) (r l o : ℕ)
    → o < l
    → copy (copy buf r first l) 0 second r (r + o) ≡ first o
reads-second buf first second r l o h =
    let back : r + o - r ≡ o = omega arith in ground (arith, ap first back)

module _ (c : Config) (v : IsConfig c) where
  pub Exact-u32 : Exact u32 (groups c)
  Exact-u32 x h = omega (arith, v.small_groups)

  pub Exact-u64 : Exact u64 (groups c)
  Exact-u64 x h = omega (arith, v.small_groups)

  pub before-le : (i : ℕ) → i ≤ c.servers → before (server_map c) i ≤ groups c
  before-le i h = omega (arith, before_mono (server_map c) i c.servers h, sum-server_map c v)

  module _ (id : ℕ) (id_in : id < c.servers) where
    -- The chunks to the right end of the map, and those from its left end.
    abbrev pub right_chunks : ℕ
    right_chunks = min c.chunks (c.servers - id)

    abbrev pub left_chunks : ℕ
    left_chunks = c.chunks - right_chunks

    right_walk :
        ((groups_right c id).0 + before (server_map c) id
          ≡ before (server_map c) (id + right_chunks))
        × ((groups_right c id).1 ≡ left_chunks)
    unfolding groups_right
    right_walk =
        let e = length-server_map c v in
        let fits = before-le (id + right_chunks) (omega arith) in
        rw e (
          omega (
            arith,
            walk_right_lem u64 (server_map c) (groups c) Exact-u64 c.servers c.chunks id 0
                (omega arith),
          ))

    pub groups_right_lem :
        (groups_right c id).0 + before (server_map c) id ≡ before (server_map c) (id + right_chunks)
    groups_right_lem = right_walk.0

    pub groups_left_lem : groups_left c id ≡ before (server_map c) left_chunks
    unfolding groups_left
    groups_left_lem =
        let fits = before-le left_chunks (omega (arith, v.chunks_in)) in
        let none_before = sum-zero (at (server_map c)) in
        let e : before (server_map c) (0 + left_chunks) ≡ before (server_map c) left_chunks =
          ap (before (server_map c)) (omega arith) in
        rw (right_walk.1) (
          omega (
            arith,
            walk_left_lem u64 (server_map c) (groups c) Exact-u64 left_chunks 0 0 (omega arith),
          ))

    pub groups_to_ignore_lem : groups_to_ignore c id + groups_left c id ≡ before (server_map c) id
    unfolding groups_to_ignore
    groups_to_ignore_lem =
        let small = v.few_servers in
        let count : u64 (id + 2 ^ 64 - left_chunks) ≡ id - left_chunks =
          omega (arith, v.chunks_in) in
        let low : before (server_map c) (id - 0 - (id - left_chunks))
            ≡ before (server_map c) left_chunks =
          ap (before (server_map c)) (omega (arith, v.chunks_in)) in
        let top : before (server_map c) (id - 0) ≡ before (server_map c) id =
          ap (before (server_map c)) (omega arith) in
        let fits = before-le id (omega arith) in
        rw (right_walk.1, count)
          (omega (
            arith,
            groups_left_lem,
            walk_back_lem u64 (server_map c) (groups c) Exact-u64 id (id - left_chunks) 0 0
                (omega arith) (omega arith),
          ))

    -- What a server has in memory after loading file `f`: the key, and the entries of its own
    -- groups, each at the place that its local number gives it.
    pub record Holds (f : DbFile) (fe_size : ℕ) (db key : Buffer) : Type 0 where
      pub key_bytes : (i : ℕ) → i < fe_size → key i ≡ f.body (1 + fe_size + i)
      pub right_part :
          (t w j : ℕ)
          → t < (groups_right c id).0
          → w < 256
          → j < c.block_size
          → entry c db t w j
            ≡ entry c (advance f.body (1 + fe_size + fe_size)) (before (server_map c) id + t) w j
      pub left_part :
          (t w j : ℕ)
          → t < groups_left c id
          → w < 256
          → j < c.block_size
          → entry c db ((groups_right c id).0 + t) w j
            ≡ entry c (advance f.body (1 + fe_size + fe_size)) t w j

    module _ (f : DbFile) (fe_size : ℕ) (fresh : Buffer) (ok : header_fits c f ≡ true) where
      abbrev body : Buffer
      body = advance f.body (1 + fe_size + fe_size)

      same_block : f.block_size ≡ c.block_size
      same_block = ground arith

      -- The bytes of `n` groups, as the code writes them.
      abbrev bytes_of : ℕ → ℕ
      bytes_of n = n * (group_size_p2 * f.block_size)

      abbrev right_body : Buffer
      right_body =
          advance f.body
            (1 + fe_size + fe_size + bytes_of (groups_left c id) + bytes_of (groups_to_ignore c id))

      bytes_of_lem : (n : ℕ) → bytes_of n ≡ n * pre_offset c
      bytes_of_lem n = rw same_block (omega arith)

      loaded_db-right :
          (o : ℕ)
          → o < (groups_right c id).0 * pre_offset c
          → loaded_db c f id fe_size fresh o ≡ body (before (server_map c) id * pre_offset c + o)
      unfolding loaded_db
      loaded_db-right o h =
          reads-first fresh body right_body (bytes_of (groups_right c id).0)
            (bytes_of (groups_left c id)) o (omega (arith, bytes_of_lem (groups_right c id).0))
          ∙ ap f.body address
        where
          skipped :
              groups_to_ignore c id * pre_offset c + groups_left c id * pre_offset c
              ≡ before (server_map c) id * pre_offset c
          skipped = omega (arith, ap (λ (n : ℕ). n * pre_offset c) groups_to_ignore_lem)

          address :
              1
                + fe_size
                + fe_size
                + bytes_of (groups_left c id)
                + bytes_of (groups_to_ignore c id)
                + o
              ≡ 1 + fe_size + fe_size + (before (server_map c) id * pre_offset c + o)
          address = omega (
            arith,
            bytes_of_lem (groups_left c id),
            bytes_of_lem (groups_to_ignore c id),
            skipped,
          )

      loaded_db-left :
          (o : ℕ)
          → o < groups_left c id * pre_offset c
          → loaded_db c f id fe_size fresh ((groups_right c id).0 * pre_offset c + o) ≡ body o
      unfolding loaded_db
      loaded_db-left o h =
          ap (loaded_db c f id fe_size fresh) here
          ∙ reads-second fresh body right_body (bytes_of (groups_right c id).0)
              (bytes_of (groups_left c id)) o (omega (arith, bytes_of_lem (groups_left c id)))
        where
          here : (groups_right c id).0 * pre_offset c + o ≡ bytes_of (groups_right c id).0 + o
          here = omega (arith, bytes_of_lem (groups_right c id).0)

      loaded_db-Holds :
          (fresh_key : Buffer)
          → Holds f fe_size (loaded_db c f id fe_size fresh) (loaded_key c f fe_size fresh_key)
      unfolding loaded_key
      loaded_db-Holds fresh_key = record {
        key_bytes = λ i h. ground arith;
        right_part =
            λ t w j p q r. loaded_db-right _ (entry-lt c t w _ j p q r) ∙ ap body (omega arith);
        left_part = λ t w j p q r.
            ap (loaded_db c f id fe_size fresh) (omega arith)
            ∙ loaded_db-left _ (entry-lt c t w _ j p q r);
      }

    -- A file whose header fits the configuration is loaded: the server has the key, and its groups
    -- from both parts of the file.
    pub read_db_lem :
        (f : DbFile) (fe_size : ℕ) (fresh fresh_key : Buffer)
        → header_fits c f ≡ true
        → (db : Buffer) × (key : Buffer) × (read_db c (some f) id fe_size fresh fresh_key
            ≡ loaded db key ((groups_right c id).0 + groups_left c id))
          × Holds f fe_size db key
    unfolding read_db
    read_db_lem f fe_size fresh fresh_key ok = (
      loaded_db c f id fe_size fresh,
      loaded_key c f fe_size fresh_key,
      rw ok,
      loaded_db-Holds f fe_size fresh ok fresh_key,
    )
