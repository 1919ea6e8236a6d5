-- ===== src/Chunks.antt =====
-- `chunksGroupsMap`: how many groups each chunk of the database has. It is built by the
-- constructors of RAID_pirServer, RAID_pirCenterServer and RAID_pirClient.
pub mod Laws
use cip_pir.Base.{ℕ, zero, suc, ◌+◌, ◌*◌, ◌/◌, ◌%◌, ◌^◌, List, [], ◌∷◌, ◌++◌}
use cip_pir.Base.{u32, if◌then◌else◌, ltb}
use cip_pir.Config.{Config, groups, group_size}

module _ (c : Config) where
  -- One round of the servers' loop, in `uint32_t`.
  server_chunk : ℕ → ℕ
  server_chunk i =
      let chunk_groups = u32 (groups c / c.servers) in
      if ltb i (u32 (groups c % c.servers)) then u32 (chunk_groups + 1) else chunk_groups

  server_map_from : ℕ → ℕ → List ℕ → List ℕ
  unfolding server_chunk
  server_map_from zero i acc = acc
  server_map_from (suc left) i acc = server_map_from left (i + 1) (acc ++ server_chunk i ∷ [])

  -- The loop of the constructors of the servers.
  unfoldable pub server_map : List ℕ
  unfolding server_map_from
  server_map = server_map_from c.servers 0 []

  -- One round of the client's loop, in `uint64_t`.
  client_chunk : ℕ → ℕ
  client_chunk i =
      let chunk_groups = groups c / c.servers in
      if ltb i (groups c % c.servers) then chunk_groups + 1 else chunk_groups

  client_map_from : ℕ → ℕ → List ℕ → ℕ → List ℕ × ℕ
  unfolding client_chunk
  client_map_from zero i acc total = (acc, total)
  client_map_from (suc left) i acc total =
      client_map_from left (i + 1) (acc ++ u32 (client_chunk i) ∷ []) (u32 (total + client_chunk i))

  -- The loop of the client's constructor: the map, and `totalgroups`.
  unfoldable pub client_map : List ℕ × ℕ
  unfolding client_map_from
  client_map = client_map_from c.servers 0 [] 0

  -- `querysize`, in `uint32_t`.
  pub client_query_size : ℕ
  unfolding client_map
  client_query_size = u32 (client_map.1 * group_size) / 8
