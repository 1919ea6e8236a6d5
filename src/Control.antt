-- ===== src/Control.antt =====
-- CenterServer/RAID_pirCenterServer.cpp, CenterServer/CentralConnectionHandler.cpp and `setActive`
-- of CenterServer/RAID_pirCenterWorker.cpp: how a peer server starts and stops the sending of its
-- tuples.
pub mod Starts
pub mod Routes
use cip_pir.Base.{
  ℕ, zero, suc, ◌+◌, ◌-◌, ◌*◌, List, [], ◌∷◌, Option, none, some, Bool, true, false, not, ◌&&◌,
}
use cip_pir.Base.{u8, if◌then◌else◌, ◌==◌}
use cip_pir.Config.{Config}

-- The flag `active` of a worker, and how many threads it has started that run `transfer`. The
-- pointer `t2` is set by the first start; until then it has no value.
pub record Sender : Type 0 where
  pub active : Bool
  pub started : ℕ

abbrev pub fresh_sender : Sender
fresh_sender = record { active = false; started = 0 }

-- `setActive`, or `none` where it would use `t2` without a value.
unfoldable pub set_active : Bool → Sender → Option Sender
set_active val s =
    if val && not s.active
    then some (record { active = val; started = s.started + 1 })
    else if s.started == 0
    then none
    else some (record { active = val; started = s.started })

-- The center server: its workers' senders, in the order of `workers`, and `centralizedArch`.
pub record Center : Type 0 where
  pub senders : List Sender
  pub centralized : Bool

-- `startServer`: one worker for each server, or one for the one peer.
start_workers : ℕ → List Sender
start_workers zero = []
start_workers (suc n) = fresh_sender ∷ start_workers n

pub start_server : Config → Bool → Center
unfolding start_workers
start_server c centralized = record {
  senders = if centralized then start_workers c.servers else start_workers 1;
  centralized = centralized;
}

infixl 10 ◌>>=◌
abbrev ◌>>=◌ {ℓ} : {A B : Type ℓ} → Option A → (A → Option B) → Option B
none >>= f = none
some x >>= f = f x

-- `workers[i]` changed by a function, or `none` behind the end of the vector.
unfoldable pub change_at : ℕ → (Sender → Option Sender) → List Sender → Option (List Sender)
change_at i f [] = none
change_at zero f (s ∷ senders) = do t ← f s; some (t ∷ senders)
change_at (suc i) f (s ∷ senders) = do rest ← change_at i f senders; some (s ∷ rest)

-- The index that `getWorker` uses.
abbrev pub worker_index : Center → ℕ → ℕ
worker_index s id = if s.centralized then id else 0

-- `readHandler` for the two bytes of a message, if the read had no error.
unfoldable pub read_handler : Bool → ℕ → ℕ → Center → Option Center
unfolding change_at
read_handler true id state s = some s
read_handler false id state s = do
  senders ← change_at (worker_index s id) (set_active (not (state == 0))) s.senders
  some (record { senders = senders; centralized = s.centralized })

-- What an `async_read` of a connection ends with.
pub data Completion : Type 0 where
  failed : Completion
  message : (id state : ℕ) → Completion

-- `start` of a connection: `read`, and after each message that is handled another `read`; after an
-- error there is none.
unfoldable pub read_messages : List Completion → Center → Option Center
unfolding read_handler
read_messages [] s = some s
read_messages (Completion.failed ∷ ms) s = read_handler true 0 0 s
read_messages (Completion.message id state ∷ ms) s = do
  t ← read_handler false id state s
  read_messages ms t

-- `readLoop`, which no code calls: it looks at no error and handles the two bytes in its buffer,
-- which after a read that failed are those of the message before.
pub read_loop : ℕ → ℕ → List Completion → Center → Option Center
unfolding read_handler
read_loop id state [] s = some s
read_loop id state (Completion.failed ∷ ms) s = do
  t ← read_handler false id state s
  read_loop id state ms t
read_loop id state (Completion.message id' state' ∷ ms) s = do
  t ← read_handler false id' state' s
  read_loop id' state' ms t

-- The listener: the connections that were started, and the accepts that are open. `startAccept`
-- opens one, `handleAccept` starts the connection of one that had no error and opens the next.
pub record Listener : Type 0 where
  pub started : ℕ
  pub accepting : ℕ

pub start_accept : Listener → Listener
start_accept l = record { started = l.started; accepting = l.accepting + 1 }

pub handle_accept : Bool → Listener → Listener
unfolding start_accept
handle_accept error l =
    start_accept
      (record { started = if error then l.started else l.started + 1; accepting = l.accepting - 1 })
