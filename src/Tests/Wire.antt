-- ===== src/Tests/Wire.antt =====
-- The messages of a client and of the center server.
use cip_pir.Base.{◌≡◌, arith, refl, List, [], ◌∷◌, some, true, false}
use cip_pir.Messages.{send_chunks}
use cip_pir.Messages.Chunks.{IsSent, send_chunks-IsSent}
use cip_pir.Control.{
  Center, Completion, fresh_sender, set_active, change_at, read_handler, read_messages,
}
use cip_pir.Control.Routes.{sender_at, values_for, set_all, read_messages-set_all}

send_chunks-IsSent_example : IsSent 0 70 (send_chunks 3 1 70)
send_chunks-IsSent_example = send_chunks-IsSent 3 1 70 (omega arith) (omega arith)

-- Worker 1 is started and stopped, worker 0 is started; what comes behind the error does nothing.
abbrev four_messages : List Completion
four_messages =
    Completion.message 1 1
    ∷ Completion.message 0 1
    ∷ Completion.message 1 0
    ∷ Completion.failed
    ∷ Completion.message 0 0
    ∷ []

abbrev two_workers : Center
two_workers = record { senders = fresh_sender ∷ fresh_sender ∷ []; centralized = true }

abbrev both_started : Center
both_started = record {
  senders = record { active = true; started = 1 } ∷ record { active = false; started = 1 } ∷ [];
  centralized = true;
}

all_handled : read_messages four_messages two_workers ≡ some both_started
unfolding read_messages read_handler change_at set_active
all_handled = refl

worker_one : sender_at 1 two_workers.senders ≡ some fresh_sender
unfolding sender_at
worker_one = refl

read_messages-set_all_example :
    sender_at 1 both_started.senders ≡ set_all (values_for true 1 four_messages) fresh_sender
read_messages-set_all_example =
    read_messages-set_all four_messages two_workers both_started 1 fresh_sender all_handled
      worker_one
