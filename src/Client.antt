-- ===== src/Client.antt =====
-- Client/CIP_pirClient.cpp: the query and result buffers, and the messages between the client and
-- one server.
pub mod Query
use cip_pir.Base.{ℕ, zero, suc, ◌+◌, ◌-◌, ◌*◌, ◌/◌, ◌%◌, ◌^◌, List, bit_xor}
use cip_pir.Base.{u8, u32, if◌then◌else◌, leb, at}
use cip_pir.Base.Memory.{through, Buffer, advance, write, copy, zeros}
use cip_pir.Config.{Config, group_size}
use cip_pir.Walk.{walk_right, walk_left}
use cip_pir.Chunks.{client_map}
use cip_pir.Kernels.{xor_bytes}
use cip_pir.Server.{Crypto}

-- The buffers of a client.
pub record Client : Type 0 where
  pub query_buf : Buffer
  pub result_buf : Buffer

module _ (c : Config) where
  abbrev chunks_groups_map : List ℕ
  chunks_groups_map = (client_map c).0

  -- `initRequest`
  pub init_request : Client → Client
  init_request s = record s { query_buf = zeros }

  -- `groupsright` of `handleSeed`, with the number of chunks that are left to go.
  pub groups_right : ℕ → ℕ × ℕ
  groups_right id = walk_right u32 chunks_groups_map c.servers (c.chunks - 1) (1 + id) 0

  -- `groupsleft` of `handleSeed`
  pub groups_left : ℕ → ℕ
  unfolding groups_right
  groups_left id = walk_left u32 chunks_groups_map (groups_right id).1 0 0

  -- `skipgroups` of `handleSeed`: all chunks up to the server's own.
  pub skip_groups : ℕ → ℕ
  skip_groups id = walk_left u32 chunks_groups_map (id + 1) 0 0

  -- `handleSeed`: the query that the server made from its seed goes into the query buffer, at the
  -- groups of the chunks that the server's block covers.
  pub handle_seed : Crypto → ℕ → List ℕ → Client → Client
  unfolding groups_right groups_left skip_groups
  handle_seed k id seed s =
      let right = (groups_right id).0 in
      let left = groups_left id in
      let n = u32 (u32 (left + right) * group_size) / 8 in
      let query = k.gen_rnd_from_seed seed n in
      let right_bytes = u32 (right * group_size) / 8 in
      let left_bytes = u32 (left * group_size) / 8 in
      let buf =
        through s.query_buf (u32 (skip_groups id * group_size) / 8)
          (λ p. xor_bytes p query right_bytes) in
      record s { query_buf = xor_bytes buf (advance query right_bytes) left_bytes }

  -- The first lines of `runPIR`: the bit of the wanted block is flipped, and the result cleared.
  pub start_pir : ℕ → Client → Client
  start_pir index s =
      let query_index = index / group_size in
      let query_value = u8 (2 ^ (group_size - 1 - index % group_size)) in
      record s {
        query_buf = write s.query_buf query_index (bit_xor (s.query_buf query_index) query_value);
        result_buf = zeros;
      }

  -- `sendQuery`: what goes to a server is the part of the buffer for its own chunk. The server
  -- reads it into a buffer whose other bytes are `fresh`.
  pub send_query : ℕ → Buffer → Client → Buffer
  send_query id fresh s =
      let start_id = walk_left u32 chunks_groups_map id 0 0 in
      copy fresh 0 (advance s.query_buf start_id) (at chunks_groups_map id)

  -- `receiveResults`
  pub receive_results : Buffer → Client → Client
  receive_results answer s = record s { result_buf = xor_bytes s.result_buf answer c.block_size }
