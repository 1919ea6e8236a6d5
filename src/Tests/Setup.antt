-- ===== src/Tests/Setup.antt =====
-- A database of ten blocks of two entries, in two groups, for two servers.
use cip_pir.Base.{
  ℕ, ◌+◌, ◌-◌, ◌*◌, ◌<◌, ◌≡◌, zero, suc, refl, ap, ◌∙◌, fun_ext, arith, List, [], ◌∷◌,
  if◌then◌else◌, ltb, u8,
}
use mathlib.Core.Path.{subst}
use native.Mathlib.Bridge.{le_prop}
use cip_pir.Base.Memory.{Buffer, advance, zeros, IsBytes}
use cip_pir.Curve.{Curve}
use cip_pir.Config.{Config, IsConfig}
use cip_pir.Tables.{IsTable, table_of, table_of-IsTable}
use cip_pir.Server.{DbFile, Crypto, precompute_block}
use cip_pir.Server.Database.{read_db_lem}
use cip_pir.Protocol.{Peer}
use cip_pir.Protocol.Retrieval.{IsReady}

abbrev pub small : Config
small = record {
  entries = 20;
  entry_size = 1;
  servers = 2;
  chunks = 2;
  block_size = 2;
  security_level = 16;
  number_seeds = 2;
  manifest_bytes = 1;
}

-- The same with one entry in each block.
abbrev pub two_byte : Config
two_byte = record {
  entries = 10;
  entry_size = 2;
  servers = 2;
  chunks = 2;
  block_size = 2;
  security_level = 16;
  number_seeds = 2;
  manifest_bytes = 2;
}

pub small-IsConfig : IsConfig small
small-IsConfig = omega arith

abbrev pub small_blocks : ℕ → Buffer
small_blocks b j = 10 * b + j

-- The file: a byte behind the header, a generator and a key of three bytes, and the table.
abbrev pub small_file : DbFile
small_file = record {
  entries = 20;
  entry_size = 1;
  block_size = 2;
  group_size = 8;
  body = λ o. if ltb o 7 then o else table_of small small_blocks (o - 7);
}

pub small-preprocessed : IsTable small (advance small_file.body (1 + 3 + 3)) small_blocks
small-preprocessed =
    subst (λ t. IsTable small t small_blocks) behind (table_of-IsTable small small_blocks)
  where
    behind : table_of small small_blocks ≡ advance small_file.body (1 + 3 + 3)
    behind = fun_ext λ i.
        let back : i ≡ 7 + i - 7 = omega arith in
        ap (table_of small small_blocks) back ∙ ground arith

-- A stand-in for the generator.
abbrev pub toy_bytes : List ℕ → ℕ → Buffer
toy_bytes [] n i = u8 (i + n)
toy_bytes (x ∷ seed) n i = u8 (7 * x + 31 * i + n)

pub toy_bytes-lt : (seed : List ℕ) (n : ℕ) → IsBytes (toy_bytes seed n)
toy_bytes-lt [] n i = omega arith
toy_bytes-lt (x ∷ seed) n i = omega arith

abbrev pub toy_crypto : Crypto
toy_crypto = record { gen_rnd_from_seed = toy_bytes; gen_bytes = λ seed n i. toy_bytes-lt seed n i }

abbrev pub small_seed : ℕ → List ℕ
small_seed id = (id + 3) ∷ 5 ∷ []

-- A server that has loaded the file and draws a tuple that it has precomputed.
abbrev pub small_peer : (id : ℕ) → id < 2 → Peer
small_peer id h =
    let db = (read_db_lem small small-IsConfig id h small_file 3 zeros zeros refl).0 in
    record {
      db = db;
      tuple = record {
        seed = small_seed id;
        block = precompute_block small toy_crypto db id (small_seed id);
      };
      fresh = zeros;
    }

pub below_0 : 0 < 2
below_0 = omega arith

pub below_1 : 1 < 2
below_1 = omega arith

abbrev pub small_peers : ℕ → Peer
small_peers zero = small_peer 0 below_0
small_peers (suc id) = small_peer 1 below_1

small_peer-IsReady :
    (id : ℕ) (h : id < 2)
    → IsReady small small-IsConfig toy_crypto small_file 3 id h (small_peer id h)
small_peer-IsReady id h =
    let (db, key, e, held) = read_db_lem small small-IsConfig id h small_file 3 zeros zeros refl in
    record { key = key; holds = held; paired = λ j p. refl }

pub small_peers-IsReady :
    (id : ℕ) (h : id < 2)
    → IsReady small small-IsConfig toy_crypto small_file 3 id h (small_peers id)
small_peers-IsReady zero h =
    subst (λ p. IsReady small small-IsConfig toy_crypto small_file 3 0 p (small_peers 0))
      (le_prop below_0 h) (small_peer-IsReady 0 below_0)
small_peers-IsReady (suc zero) h =
    subst (λ p. IsReady small small-IsConfig toy_crypto small_file 3 1 p (small_peers 1))
      (le_prop below_1 h) (small_peer-IsReady 1 below_1)
small_peers-IsReady (suc (suc id)) h = absurd (omega arith)

-- A stand-in for the curve library.
abbrev pub toy_curve : Curve
toy_curve = record {
  Fe = ℕ;
  Num = ℕ;
  fe_size = 3;
  num_from_bytes = λ b n. b 0;
  set_pow = λ g n. n + g;
  set_mul = λ p k. p + k;
  set_div = λ p k. p - k;
  export_to_bytes = λ p i. p + i;
  import_from_bytes = λ b. b 0;
  sha256_hash = λ b n i. u8 (b i);
}
