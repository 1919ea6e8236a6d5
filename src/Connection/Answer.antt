-- ===== src/Connection/Answer.antt =====
-- What a client gets from a server whose pool holds a tuple.
use cip_pir.Base.{
  ℕ, ◌+◌, ◌≤◌, ◌<◌, ◌≡◌, ◌⊎◌, inl, inr, arith, refl, ap, ◌∙◌, some, none, if◌then◌else◌, ◌==◌, Bool,
  true, false,
}
use cip_pir.Base.Memory.{Buffer, advance, copy, copy-inside, copy-outside}
use cip_pir.Config.{Config, seed_bytes}
use cip_pir.Curve.{Curve, blind_hash}
use cip_pir.Server.{execute}
use cip_pir.Seeds.{Pool}
use cip_pir.Seeds.Slots.{IsRing, tuple_size}
use cip_pir.Seeds.Queue.{Queue, Represents, pop, next_seed-Represents}
use cip_pir.Connection.{Reply, seed_at, seed_buffer, reply_with, once_drawn, serve}

tuple_in :
    (b : Bool) (fresh tuple point : Buffer) (f j n : ℕ)
    → j < n
    → (λ (buf : Buffer). if b then copy buf 0 point f else buf)
        (copy fresh (if b then f else 0) tuple n)
        ((if b then f else 0) + j)
      ≡ tuple j
tuple_in true fresh tuple point f j n l =
    copy-outside (copy fresh f tuple n) point 0 f (f + j) (inr (omega arith))
    ∙ copy-inside fresh tuple f n (f + j) j refl l
tuple_in false fresh tuple point f j n l = copy-inside fresh tuple 0 n (0 + j) j refl l

module _ (c : Config) (curve : Curve) (id : ℕ) (key : curve.Fe) (db init query fresh : Buffer) where
  -- Behind the point, the buffer has the tuple.
  seed_buffer-tuple :
      (tuple : Buffer) (j : ℕ)
      → j < tuple_size c
      → seed_buffer c curve id key init fresh tuple (seed_at c curve id + j) ≡ tuple j
  seed_buffer-tuple tuple j l =
      tuple_in (id == 0) fresh tuple
        (curve.export_to_bytes (blind_hash curve (curve.import_from_bytes init) key)) curve.fe_size
        j (tuple_size c) l

  -- What a reply has if the tuple `t` was drawn.
  pub record IsReply (t : Buffer) (r : Reply) : Type 0 where
    pub seed_sent : (j : ℕ) → j < seed_bytes c → r.greeting (seed_at c curve id + j) ≡ t j
    pub sent_size : r.greeting_size ≡ seed_at c curve id + seed_bytes c
    pub dest : Buffer
    pub dest_block : (j : ℕ) → j < c.block_size → dest j ≡ t (seed_bytes c + j)
    pub answered : r.answer ≡ execute c db id dest query

  -- A server whose pool holds a queue waits if the queue is empty. Otherwise it sends the seed of
  -- the oldest tuple and not its block, answers from that block, and its pool holds the others.
  pub serve-IsReply :
      IsRing c
      → (p : Pool) (q : Queue) → Represents c p q
      → ((q.count ≡ 0) × (serve c curve id key db init query fresh p ≡ none))
        ⊎ ((1 ≤ q.count)
            × (r : Reply) × (serve c curve id key db init query fresh p ≡ some r)
            × IsReply (q.tuple_at 0) r
            × Represents c r.left (pop q))
  unfolding serve
  serve-IsReply v p q h =
      elim (next_seed-Represents c v p q h (advance fresh (seed_at c curve id))) [
        | inl (empty, waits) ↦
            inl (empty, ap (once_drawn (reply_with c curve id key db init query fresh)) waits)
        | inr (some_tuple, t, rest, drawn, same, left) ↦
            let buffer = seed_buffer c curve id key init fresh t in
            inr (
              some_tuple,
              reply_with c curve id key db init query fresh (t, rest),
              ap (once_drawn (reply_with c curve id key db init query fresh)) drawn,
              record {
                seed_sent = λ j l. seed_buffer-tuple t j (omega arith) ∙ same j (omega arith);
                sent_size = refl;
                dest = advance buffer (seed_at c curve id + seed_bytes c);
                dest_block = λ j l.
                    ap buffer (omega arith)
                    ∙ seed_buffer-tuple t (seed_bytes c + j) (omega arith)
                    ∙ same (seed_bytes c + j) (omega arith);
                answered = refl;
              },
              left,
            )
      ]
