-- ===== src/Connection.antt =====
-- PeerServer/ClientConnection.cpp: what a peer server does with one client, from the first message
-- to the answer, and how that uses up its seed pool. The network is taken to deliver every message
-- whole.
pub mod Answer
use cip_pir.Base.{ℕ, ◌+◌, Option, some, none}
use cip_pir.Base.{if◌then◌else◌, ◌==◌}
use cip_pir.Base.Memory.{Buffer, advance, copy}
use cip_pir.Config.{Config, seed_bytes}
use cip_pir.Curve.{Curve, blind_hash}
use cip_pir.Server.{execute}
use cip_pir.Seeds.{Pool, next_seed}

-- The message with the seed, of which `greeting_size` bytes are sent; the answer; and the pool that
-- is left.
pub record Reply : Type 0 where
  pub greeting : Buffer
  pub greeting_size : ℕ
  pub answer : Buffer
  pub left : Pool

-- What is done once `nextSeed` has ended.
abbrev pub once_drawn : (Buffer × Pool → Reply) → Option (Buffer × Pool) → Option Reply
once_drawn f none = none
once_drawn f (some drawn) = some (f drawn)

module _ (c : Config) (curve : Curve) (id : ℕ) where
  -- Where the seed stands in `seedBuffer`: server 0 sends its blinded point before it.
  abbrev pub seed_at : ℕ
  seed_at = if id == 0 then curve.fe_size else 0

  -- `seedBuffer` after `nextSeed` and, for server 0, with the client's point `init` blinded by the
  -- server's key.
  abbrev pub seed_buffer : curve.Fe → Buffer → Buffer → Buffer → Buffer
  seed_buffer key init fresh tuple =
      let drawn = copy fresh seed_at tuple (seed_bytes c + c.block_size) in
      if id == 0
      then copy drawn 0
          (curve.export_to_bytes (blind_hash curve (curve.import_from_bytes init) key))
          curve.fe_size
      else drawn

  -- The rest of `conHandler::start` for a tuple that was drawn.
  abbrev pub reply_with : curve.Fe → Buffer → Buffer → Buffer → Buffer → Buffer × Pool → Reply
  reply_with key db init query fresh (tuple, rest) =
      let buffer = seed_buffer key init fresh tuple in
      record {
        greeting = buffer;
        greeting_size = seed_at + seed_bytes c;
        answer = execute c db id (advance buffer (seed_at + seed_bytes c)) query;
        left = rest;
      }

  -- `conHandler::start`, or `none` while `nextSeed` waits. `query` is the query buffer after the
  -- read, and `fresh` what `malloc` leaves in `seedBuffer`.
  pub serve : curve.Fe → Buffer → Buffer → Buffer → Buffer → Pool → Option Reply
  serve key db init query fresh p =
      once_drawn (reply_with key db init query fresh) (next_seed c (advance fresh seed_at) p)
