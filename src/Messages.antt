-- ===== src/Messages.antt =====
-- The socket functions of Client/CIP_pirClient.cpp, with their error paths. What a read or a write
-- of the network library does is an argument.
pub mod Chunks
use cip_pir.Base.{ℕ, zero, suc, ◌+◌, ◌-◌, ◌∷◌, [], List, Bool, true, false, dec_lt}
use cip_pir.Base.{u32, if◌then◌else◌, ltb, leb, ◌==◌}
use cip_pir.Base.Memory.{Buffer, advance, copy, zeros}
use cip_pir.Config.{Config, seed_bytes}
use cip_pir.Curve.{Curve}
use cip_pir.Server.{Crypto}
use cip_pir.Client.{Client, handle_seed}

-- `read` of at least so many bytes: the bytes, with no error or at the end of the stream, or an
-- error.
pub data Received : Type 0 where
  got : Buffer → Received
  failed : Received

-- `rcv`: whether it succeeded, and `dest`.
pub rcv : ℕ → ℕ → Received → Buffer → ℕ → Bool × Buffer
rcv sockets id failed dest n = (false, dest)
rcv sockets id (got bytes) dest n =
    if leb sockets id then (false, dest) else (true, copy dest 0 bytes n)

-- `send`: whether it succeeded, and the bytes that go to the server, as their place and number.
pub send : ℕ → ℕ → Bool → ℕ → Bool × List (ℕ × ℕ)
send sockets id fails n =
    if leb sockets id then (false, []) else if fails then (false, []) else (true, (0, n) ∷ [])

-- `PIPELINE_CHUNK_SIZE`
abbrev pub pipeline_chunk_size : ℕ
pipeline_chunk_size = 32

-- The loop of `sendChunks`: the place and the number of the bytes of each write. Each round sends
-- a byte at least, so the number of bytes is enough fuel.
unfoldable pub chunks_from : ℕ → ℕ → ℕ → ℕ → List (ℕ × ℕ)
chunks_from zero bytes transferred size = []
chunks_from (suc fuel) bytes transferred size = elim (dec_lt transferred bytes) [
  | yes _ ↦
      let next = if ltb bytes (u32 (transferred + size)) then u32 (bytes - transferred) else size in
      (transferred, next) ∷ chunks_from fuel bytes (u32 (transferred + next)) next
  | no _ ↦ []
]

-- `sendChunks`, whose last line does not return a value.
pub send_chunks : ℕ → ℕ → ℕ → List (ℕ × ℕ)
send_chunks sockets id bytes =
    if leb sockets id then [] else chunks_from bytes bytes 0 pipeline_chunk_size

-- `addServer`: the number of sockets, for the limit SERVERS.
pub add_server : Config → ℕ → ℕ
add_server c sockets = if leb c.servers sockets then sockets else sockets + 1

-- `requestServer`: server 0 gets the client's point, each other one a zero byte.
pub request_server : ℕ → Buffer → ℕ → Buffer × ℕ
request_server id point n = if id == 0 then (point, n) else (zeros, 1)

bytes_of : ℕ → Buffer → List ℕ
bytes_of zero b = []
bytes_of (suc n) b = b 0 ∷ bytes_of n (advance b 1)

module _ (c : Config) (k : Crypto) where
  -- `receiveSeed`
  pub receive_seed : ℕ → ℕ → Received → Buffer → Client → Client
  unfolding bytes_of
  receive_seed sockets id message fresh s =
      let (ok, seed) = rcv sockets id message fresh (seed_bytes c) in
      if ok then handle_seed c k id (bytes_of (seed_bytes c) seed) s else s

  -- What `receiveSeedAndHash` does on server 0 after its `rcv`.
  handle_hash_and_seed : (curve : Curve) → ℕ → Bool × Buffer → curve.Fe → Client → Client × curve.Fe
  unfolding bytes_of
  handle_hash_and_seed curve id (false, buf) h_ab s = (s, h_ab)
  handle_hash_and_seed curve id (true, buf) h_ab s = (
    handle_seed c k id (bytes_of (seed_bytes c) (advance buf curve.fe_size)) s,
    curve.import_from_bytes buf,
  )

  -- `receiveSeedAndHash`: the client after it, and `H_ab`.
  pub receive_seed_and_hash :
      (curve : Curve) → ℕ → ℕ → Received → Buffer → curve.Fe → Client → Client × curve.Fe
  unfolding handle_hash_and_seed receive_seed
  receive_seed_and_hash curve sockets id message fresh h_ab s =
      if id == 0
      then handle_hash_and_seed curve id
          (rcv sockets id message fresh (curve.fe_size + seed_bytes c)) h_ab s
      else (receive_seed sockets id message fresh s, h_ab)
