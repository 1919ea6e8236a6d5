-- ===== src/Config.antt =====
-- parameters.h and config.h: the compile-time configuration of all programs, and the sizes that
-- follow from it. A `uint64_t` product or sum keeps its wrap.
pub mod Sizes
use cip_pir.Base.{ℕ, zero, suc, ◌+◌, ◌-◌, ◌*◌, ◌/◌, ◌%◌, ◌^◌, ◌≤◌, ◌<◌, ◌≡◌}
use cip_pir.Base.{u64, if◌then◌else◌, ◌==◌}

-- ENTRIES, ENTRYSIZE, SERVERS, CHUNKS, BLOCKSIZE, SECURITYLEVEL, NUMBER_SEEDS, MANIFEST_BYTES.
pub record Config : Type 0 where
  pub entries : ℕ
  pub entry_size : ℕ
  pub servers : ℕ
  pub chunks : ℕ
  pub block_size : ℕ
  pub security_level : ℕ
  pub number_seeds : ℕ
  pub manifest_bytes : ℕ

-- GROUPSIZE: the kernels of helper.h read one query byte for each group.
abbrev pub group_size : ℕ
group_size = 8

-- GROUPSIZEP2, `1 << GROUPSIZE`.
abbrev pub group_size_p2 : ℕ
group_size_p2 = 256

-- DBSIZE
abbrev pub db_size : Config → ℕ
db_size c = u64 (c.entries * c.entry_size)

-- BLOCKS
abbrev pub blocks : Config → ℕ
blocks c = u64 (db_size c + c.block_size - 1) / c.block_size

-- GROUPS
abbrev pub groups : Config → ℕ
groups c = u64 (blocks c + group_size - 1) / group_size

-- PREDBSIZE
abbrev pub pre_db_size : Config → ℕ
pre_db_size c = u64 (groups c * group_size_p2 * c.block_size)

-- preOffset: the bytes of one group of the preprocessed database.
abbrev pub pre_offset : Config → ℕ
pre_offset c = c.block_size * group_size_p2

-- `secLevel / 8`, the bytes of a seed.
abbrev pub seed_bytes : Config → ℕ
seed_bytes c = c.security_level / 8

-- What the programs take for granted of a configuration: the chunks of a server are distinct, and
-- every byte of a query has an index in `uint32_t`, also eightfold, as in `groups * GROUPSIZE / 8`.
pub record IsConfig (c : Config) : Type 0 where
  pub some_chunk : 1 ≤ c.chunks
  pub chunks_in : c.chunks ≤ c.servers
  pub few_servers : c.servers < 2 ^ 32
  pub some_block : 1 ≤ c.block_size
  pub small_db : c.entries * c.entry_size + c.block_size < 2 ^ 63
  pub small_groups : groups c * 8 < 2 ^ 32

-- parameters.h and config.h as they are.
abbrev pub default_config : Config
default_config = record {
  entries = 1000000;
  entry_size = 8;
  servers = 3;
  chunks = 3;
  block_size = 1024;
  security_level = 128;
  number_seeds = 250;
  manifest_bytes = 8;
}

bits_fuel : ℕ → ℕ → ℕ
bits_fuel zero n = 0
bits_fuel (suc f) n =
    let rest = bits_fuel f (n / 2) in if n == 0 then 0 else if n == 1 then 1 else 1 + rest

-- `bitsToRepresent`: the recursion halves a `uint64_t`, so 64 calls are enough.
pub bits_to_represent : ℕ → ℕ
unfolding bits_fuel
bits_to_represent n = bits_fuel 64 n

pub bytes_to_represent : ℕ → ℕ
unfolding bits_to_represent
bytes_to_represent n = (bits_to_represent n + 7) / 8
