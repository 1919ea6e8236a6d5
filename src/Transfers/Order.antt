-- ===== src/Transfers/Order.antt =====
-- What is sent in a run in which the threads of `transfer` do not overlap and every tuple is
-- written before the next is taken.
use cip_pir.Base.{ℕ, ◌+◌, ◌<◌, ◌≤◌, arith, ap, sym, ◌∙◌, inl, refl}
use cip_pir.Base.Memory.{Buffer}
use cip_pir.Config.{Config}
use cip_pir.Server.{Crypto}
use cip_pir.Seeds.Slots.{IsRing}
use cip_pir.Seeds.Queue.{Queue}
use cip_pir.Center.{construct, find_room, find_full, leave}
use cip_pir.Center.Producing.{
  construct-IsProducing, find_room-IsProducing, find_full-IsProducing, leave-IsProducing,
}
use cip_pir.Transfers.{Station, Step, start_station}
use cip_pir.Transfers.Flight.{rank, IsCareful, IsSame, flying_le}
use cip_pir.Transfers.Careful.{logged, RunsCarefully, IsStation, start_station-IsStation}
use cip_pir.Transfers.Steps.{move-IsStation, switch-IsStation, produce-IsStation, store-IsStation}
use cip_pir.Transfers.Sends.{fetch-IsStation, hand_over-IsStation, write-IsStation}

module _ (c : Config) (k : Crypto) (db : Buffer) (id : ℕ) (v : IsRing c) where
  Step-IsStation :
      {log : Queue} {s t : Station}
      → IsStation c k db id log s
      → IsCareful c s
      → (e : Step c k db id s t) → IsStation c k db id (logged c k db id e log) t
  unfolding construct find_room find_full leave
  Step-IsStation {log} {s} i f (Step.goes_on a l p q) =
      move-IsStation c k db id v log s i f a _ l (λ z. omega (arith, ap rank (sym p ∙ z)))
        (λ z. omega (arith, ap rank (sym p ∙ z))) (λ z. omega (arith, ap rank z))
        (λ z. absurd (omega (arith, ap rank z)))
  Step-IsStation {log} {s} i f (Step.ends a l p q) =
      move-IsStation c k db id v log s i f a _ l (λ z. omega (arith, ap rank (sym p ∙ z)))
        (λ z. omega (arith, ap rank (sym p ∙ z))) (λ z. omega (arith, ap rank z))
        (λ z. absurd (omega (arith, ap rank z)))
  Step-IsStation {log} {s} i f (Step.sees a l p q) =
      move-IsStation c k db id v log s i f a _ l (λ z. omega (arith, ap rank (sym p ∙ z)))
        (λ z. omega (arith, ap rank (sym p ∙ z))) (λ z. omega (arith, ap rank z))
        (λ z. omega (arith, q, i.producing.holds.counted))
  Step-IsStation {log} {s} i f (Step.fetches a l p) = fetch-IsStation c k db id v log s i f a l p
  Step-IsStation {log} {s} i f (Step.hands_over a l p) =
      hand_over-IsStation c k db id v log s i f a l p
  Step-IsStation {log} {s} i f (Step.writes a rest e p) =
      write-IsStation c k db id v log s i f a rest e
  Step-IsStation {log} {s} i f (Step.switches val sender d e) =
      switch-IsStation c k db id v log s i f val sender d e
  Step-IsStation {log} {s} i f (Step.constructs n) =
      produce-IsStation c k db id v log s i f _
        (construct-IsProducing c s.worker i.queue i.producing) (λ e. refl)
  Step-IsStation {log} {s} i f (Step.finds_room h l) =
      produce-IsStation c k db id v log s i f _
        (find_room-IsProducing c s.worker i.queue i.producing h l) (λ e. e)
  Step-IsStation {log} {s} i f (Step.finds_full h l) =
      produce-IsStation c k db id v log s i f _
        (find_full-IsProducing c s.worker i.queue i.producing h) (λ e. e)
  Step-IsStation {log} {s} i f (Step.stores seed h) = store-IsStation c k db id v log s i f seed h
  Step-IsStation {log} {s} i f (Step.leaves h) =
      produce-IsStation c k db id v log s i f _ (leave-IsProducing c s.worker i.queue i.producing h)
        (λ e. e)

  RunsCarefully-IsCareful :
      {fresh : Buffer} {fresh_seed : ℕ → Buffer} {log : Queue} {s : Station}
      → RunsCarefully c k db id fresh fresh_seed log s
      → IsCareful c s
  unfolding start_station
  RunsCarefully-IsCareful RunsCarefully.starts = record {
    alone = λ i j p. absurd (omega arith);
    kept = λ i m. inl refl;
  }
  RunsCarefully-IsCareful (RunsCarefully.later r e h) = h

  Runs-IsStation :
      {fresh : Buffer} {fresh_seed : ℕ → Buffer} {log : Queue} {s : Station}
      → RunsCarefully c k db id fresh fresh_seed log s
      → IsStation c k db id log s
  Runs-IsStation RunsCarefully.starts = start_station-IsStation c k db id v _ _
  Runs-IsStation (RunsCarefully.later r e h) =
      Step-IsStation (Runs-IsStation r) (RunsCarefully-IsCareful r) e

  -- In a run from the constructor on in which at every moment at most one thread of `transfer` is
  -- started and not ended, and a buffer that is still to be written belongs to a thread before its
  -- loop's test or in the wait: the tuples written are, byte by byte, the first of those stored, in
  -- their order, and of the others all but at most one are in the pool.
  pub RunsCarefully-IsSame :
      {fresh : Buffer} {fresh_seed : ℕ → Buffer} {log : Queue} {s : Station}
      → RunsCarefully c k db id fresh fresh_seed log s
      → ((n : ℕ) → n < s.sent.count → IsSame c (s.sent.tuple_at n) (log.tuple_at n))
        × (s.sent.count + s.worker.pool.available ≤ log.count)
        × (log.count ≤ s.sent.count + 1 + s.worker.pool.available)
  RunsCarefully-IsSame r =
      let i = Runs-IsStation r in
      let few = flying_le c i.flight in
      (
        i.written,
        omega (arith, i.counted, i.producing.holds.counted),
        omega (arith, i.counted, i.producing.holds.counted, few),
      )
