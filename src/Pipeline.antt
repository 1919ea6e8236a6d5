-- ===== src/Pipeline.antt =====
-- PIPELINE in PeerServer/ClientConnection.cpp and in `execute` of PeerServer/CIP_pirServer.cpp: one
-- thread receives the query in chunks while another works on the bytes that are there.
pub mod Answer
pub mod Hang
pub mod Ahead
use cip_pir.Base.{ℕ, ◌+◌, ◌-◌, ◌*◌, ◌<◌, ◌≡◌, ◌≤◌, Bool, true, false}
use cip_pir.Base.{u32, if◌then◌else◌, ltb, at}
use cip_pir.Base.Memory.{Buffer, advance, copy}
use cip_pir.Config.{Config, pre_offset}
use cip_pir.Chunks.{server_map}
use cip_pir.Server.{query_size}
use cip_pir.Kernels.{xor_full_blocks, fastxor}
use cip_pir.Messages.{pipeline_chunk_size}

-- Where the thread of `startExecuting` stands: before `execute`, in its loop, or at its end.
pub data Executor : Type 0 where
  idle running finished : Executor

-- The query, how many of its bytes have been received, how many of these are not in
-- `availableBytes` yet, whether `addBytes` has loaded `availableBytes` for them and the sum that it
-- will store, and whether the receiving loop has not ended; `availableBytes` and
-- `querySent`, which both threads use; and the variables of `execute`.
pub record Piped : Type 0 where
  pub query : Buffer
  pub received : ℕ
  pub uncounted : ℕ
  pub summing : Bool
  pub sum : ℕ
  pub receiving : Bool
  pub available : ℕ
  pub query_sent : Bool
  pub executor : Executor
  pub group : ℕ
  pub current : ℕ
  pub dest : Buffer

-- When the thread is started: `fresh` is what `malloc` gives for the query, and the shared
-- variables are as they were left.
unfoldable pub start_piped : Buffer → ℕ → Bool → Buffer → Piped
start_piped fresh available query_sent dest = record {
  query = fresh;
  received = 0;
  uncounted = 0;
  summing = false;
  sum = 0;
  receiving = true;
  available = available;
  query_sent = query_sent;
  executor = Executor.idle;
  group = 0;
  current = 0;
  dest = dest;
}

module _ (c : Config) (id : ℕ) where
  -- `chunkSize` in a round of the receiving loop; it is cut in the last round only.
  abbrev pub next_chunk : ℕ → ℕ
  next_chunk received =
      if ltb (query_size c id) (u32 (received + pipeline_chunk_size))
      then query_size c id - received
      else pipeline_chunk_size

  -- A read of the next bytes of the client's query, which is taken to come whole.
  unfoldable pub receive_chunk : Buffer → Piped → Piped
  receive_chunk sent s = record s {
    query = copy s.query s.received (advance sent s.received) (next_chunk s.received);
    received = u32 (s.received + next_chunk s.received);
    uncounted = next_chunk s.received;
  }

  -- `addBytes`, `availableBytes += n` without a lock: the load and the sum
  unfoldable pub load_count : Piped → Piped
  load_count s = record s { summing = true; sum = u32 (s.available + s.uncounted) }

  -- and the store.
  unfoldable pub count_chunk : Piped → Piped
  count_chunk s = record s { available = s.sum; uncounted = 0; summing = false }

  -- `queryComplete`, behind the loop.
  unfoldable pub complete : Piped → Piped
  complete s = record s { query_sent = true; receiving = false }

  -- The start of `execute`.
  unfoldable pub begin_execute : Piped → Piped
  begin_execute s = record s {
    query_sent = false;
    available = 0;
    executor = Executor.running;
    group = 0;
    current = 0;
  }

  -- The body of its loop, for a byte that is there.
  unfoldable pub add_group : Buffer → Piped → Piped
  add_group db s = record s {
    dest = xor_full_blocks c s.dest (advance db (s.current + s.query s.group * c.block_size));
    current = s.current + pre_offset c;
    group = s.group + 1;
  }

  -- The rest of `execute`.
  unfoldable pub add_rest : Buffer → Piped → Piped
  add_rest db s = record s {
    dest =
        fastxor c s.dest (advance db s.current) (advance s.query s.group)
          (at (server_map c) id - s.group);
    executor = Executor.finished;
  }

  -- A step of one of the threads, for the query `sent`.
  pub data Step (db sent : Buffer) (s : Piped) : Piped → Type 0 where
    receives :
        s.receiving ≡ true
        → s.uncounted ≡ 0
        → s.received < query_size c id
        → Step db sent s (receive_chunk sent s)
    loads : 1 ≤ s.uncounted → s.summing ≡ false → Step db sent s (load_count s)
    counts : s.summing ≡ true → Step db sent s (count_chunk s)
    completes :
        s.receiving ≡ true
        → s.uncounted ≡ 0
        → query_size c id ≤ s.received
        → Step db sent s (complete s)
    begins : s.executor ≡ Executor.idle → Step db sent s (begin_execute s)
    adds :
        s.executor ≡ Executor.running
        → s.query_sent ≡ false
        → s.group < s.available
        → Step db sent s (add_group db s)
    ends : s.executor ≡ Executor.running → s.query_sent ≡ true → Step db sent s (add_rest db s)

  pub data Reach (db sent : Buffer) (s : Piped) : Piped → Type 0 where
    here : Reach db sent s s
    later : {t u : Piped} → Reach db sent s t → Step db sent t u → Reach db sent s u
