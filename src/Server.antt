-- ===== src/Server.antt =====
-- PeerServer/CIP_pirServer.cpp, and the parts of CenterServer/RAID_pirCenterWorker.cpp that repeat
-- it: reading the database, precomputing a seed tuple, and answering a query.
pub mod Database
pub mod Answers
use cip_pir.Base.{ℕ, suc, ◌+◌, ◌-◌, ◌*◌, ◌/◌, ◌^◌, ◌≡◌, Option, none, some, List, Bool}
use cip_pir.Base.{u32, u64, if◌then◌else◌, ◌==◌, ◌&&◌, at, length}
use cip_pir.Base.Memory.{Buffer, advance, copy, zeros, IsBytes}
use cip_pir.Config.{Config, group_size, group_size_p2, pre_offset}
use cip_pir.Walk.{walk_right, walk_left, walk_back, walk_round}
use cip_pir.Chunks.{server_map}
use cip_pir.Kernels.{fastxor}

-- An open database file: the numbers of its text header, and the bytes after the header.
pub record DbFile : Type 0 where
  pub entries : ℕ
  pub entry_size : ℕ
  pub block_size : ℕ
  pub group_size : ℕ
  pub body : Buffer

-- `exit(16)`, or the buffers `db` and `keyBytes` and the groups that `db` holds.
pub data Loaded : Type 0 where
  exits : ℕ → Loaded
  loaded : Buffer → Buffer → ℕ → Loaded

-- What the crypto library's `gen_rnd_from_seed` gives for a seed: that many bytes, the same ones
-- whenever it is called.
pub record Crypto : Type 0 where
  pub gen_rnd_from_seed : List ℕ → ℕ → Buffer
  pub gen_bytes : (seed : List ℕ) (n : ℕ) → IsBytes (gen_rnd_from_seed seed n)

module _ (c : Config) where
  abbrev pub header_fits : DbFile → Bool
  header_fits f =
      f.entries == c.entries
      && f.entry_size == c.entry_size
      && f.block_size == c.block_size
      && f.group_size == group_size

  -- `groupsForServerRight`, with the number of chunks that are left to go.
  pub groups_right : ℕ → ℕ × ℕ
  groups_right id = walk_right u64 (server_map c) (length (server_map c)) c.chunks id 0

  -- `groupsForServerLeft`; the loop runs `chunksForServerLeft` times.
  pub groups_left : ℕ → ℕ
  unfolding groups_right
  groups_left id = walk_left u64 (server_map c) (groups_right id).1 0 0

  -- `groupsToIgnore`: `chunksToIgnore` is `id - chunksForServerLeft` in `uint64_t`.
  pub groups_to_ignore : ℕ → ℕ
  unfolding groups_right
  groups_to_ignore id =
      walk_back u64 (server_map c) id (u64 (id + 2 ^ 64 - (groups_right id).1)) 0 0

  -- The key that `readDB` reads, after the byte behind the header and the generator. `fe_size` is
  -- the curve's `fe_byte_size()`, and `fresh` what `malloc` left in the buffer.
  loaded_key : DbFile → ℕ → Buffer → Buffer
  loaded_key f fe_size fresh = copy fresh 0 (advance f.body (1 + fe_size)) fe_size

  -- The two reads into `db`: the groups from the left end of the file go behind those of the
  -- server's own chunk and the chunks to its right. Each `read` goes on where the last `read` or
  -- `ignore` stopped.
  loaded_db : DbFile → ℕ → ℕ → Buffer → Buffer
  loaded_db f id fe_size fresh =
      let group_bytes = group_size_p2 * f.block_size in
      let right = (groups_right id).0 in
      let left = groups_left id in
      let left_at = 1 + fe_size + fe_size in
      let right_at = left_at + left * group_bytes + groups_to_ignore id * group_bytes in
      let db = copy fresh (right * group_bytes) (advance f.body left_at) (left * group_bytes) in
      copy db 0 (advance f.body right_at) (right * group_bytes)

  -- `readDB`, for a file that cannot be opened or that is open.
  pub read_db : Option DbFile → ℕ → ℕ → Buffer → Buffer → Loaded
  unfolding loaded_key loaded_db
  read_db none id fe_size fresh fresh_key = exits 16
  read_db (some f) id fe_size fresh fresh_key =
      if header_fits f
      then loaded (loaded_db f id fe_size fresh) (loaded_key f fe_size fresh_key)
          ((groups_right id).0 + groups_left id)
      else exits 16

  -- `groupsToGenerate` of `precompute`, in `uint32_t`.
  unfoldable pub groups_to_generate : ℕ → ℕ
  groups_to_generate id = walk_round u32 (server_map c) id (c.chunks - 1) 1 0

  -- `bytesToGenerate`
  abbrev pub bytes_to_generate : ℕ → ℕ
  bytes_to_generate id = u32 (groups_to_generate id * group_size) / 8

  -- The body of `precompute` on the CPU, for one seed: the block that goes behind the seed. The
  -- database pointer skips the server's own chunk, and the target starts at zero.
  pub precompute_block : Crypto → Buffer → ℕ → List ℕ → Buffer
  precompute_block k db id seed =
      let n = bytes_to_generate id in
      let db_offset = at (server_map c) id * group_size_p2 * c.block_size in
      fastxor c zeros (advance db db_offset) (k.gen_rnd_from_seed seed n) n

  -- `getQuerySize`
  unfoldable pub query_size : ℕ → ℕ
  query_size id = u32 (at (server_map c) id * group_size) / 8

  -- `execute` on the CPU: the server's own chunk, added to what the seed's block holds.
  unfoldable pub execute : Buffer → ℕ → Buffer → Buffer → Buffer
  execute db id dest query = fastxor c dest db query (at (server_map c) id)
