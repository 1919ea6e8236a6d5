-- ===== src/Transfers/Sends.antt =====
-- A tuple on its way through a thread of `transfer`: taken, handed over and written.
use cip_pir.Base.{
  ℕ, suc, ◌+◌, ◌-◌, ◌<◌, ◌≤◌, ◌≡◌, ◌≢◌, inl, inr, arith, refl, ap, sym, ◌∙◌, List, [], ◌∷◌, ◌++◌,
  ℕ_discrete, dec_lt, length,
}
use cip_pir.Base.Memory.{Buffer}
use cip_pir.Config.{Config}
use cip_pir.Server.{Crypto}
use cip_pir.Seeds.Slots.{IsRing}
use cip_pir.Seeds.Queue.{Queue, pop, push_here, push_before, copied_tuple-first}
use cip_pir.Center.{take_and_launch}
use cip_pir.Center.Producing.{take_and_launch-IsProducing}
use cip_pir.Transfers.{Place, Station, fetch, hand_over, write}
use cip_pir.Transfers.Flight.{
  rank, IsCareful, IsSame, Flight, flying, set_same, set_other, set-cases, one_place, kept-rank,
}
use cip_pir.Transfers.Careful.{IsStation}

front : List ℕ → ℕ
front [] = 0
front (x ∷ l) = x

behind : List ℕ → List ℕ
behind [] = []
behind (x ∷ l) = l

module _ (c : Config) (k : Crypto) (db : Buffer) (id : ℕ) where
  module _ (v : IsRing c) where
    module _ (log : Queue) (s : Station) (i : IsStation c k db id log s)
        (careful : IsCareful c s) where
      pub fetch-IsStation :
          (a : ℕ)
          → a < s.sender.started
          → (s.threads a).place ≡ Place.passed
          → IsStation c k db id log (fetch c a s)
      unfolding fetch take_and_launch
      fetch-IsStation a l e = from i.flight i.counted i.waits
        where
          some_tuple : 1 ≤ i.queue.count
          some_tuple = i.seen a e

          no_other : (j : ℕ) → a ≢ j → (s.threads j).place ≡ Place.passed → 1 ≤ i.queue.count - 1
          no_other j d w = elim (dec_lt j s.sender.started) [
            | yes h ↦ absurd (
                d
                  (one_place c s careful a j l h (omega (arith, ap rank e))
                    (omega (arith, ap rank w))).0)
            | no h ↦ absurd (omega (arith, ap rank (sym w ∙ i.to_come j (omega (arith, h)))))
          ]

          from :
              (f : Flight c (log.tuple_at s.sent.count) s.sender.started s.threads s.pending)
              → log.count ≡ s.sent.count + flying c f + i.queue.count
              → ((n : ℕ)
                  → n < i.queue.count
                  → IsSame c (i.queue.tuple_at n) (log.tuple_at (s.sent.count + flying c f + n)))
              → IsStation c k db id log (fetch c a s)
          from (Flight.nothing none_pending n) counted waits = record {
            queue = pop i.queue;
            producing =
                take_and_launch-IsProducing c s.worker i.queue i.producing v some_tuple
                  (i.ready (omega arith));
            flight =
                Flight.held a l (ap (λ t. t.place) (set_same c a a _ s.threads refl)) none_pending
                  (λ x b.
                    ap (λ t. t.seed x) (set_same c a a _ s.threads refl)
                    ∙ copied_tuple-first c v s.worker.pool i.queue i.producing.holds
                        (s.threads a).seed some_tuple x b
                    ∙ waits 0 some_tuple x b
                    ∙ ap (λ m. log.tuple_at m x) (omega arith));
            counted = omega (arith, counted, some_tuple);
            waits = λ n h x b.
                waits (suc n) (omega arith) x b ∙ ap (λ m. log.tuple_at m x) (omega arith);
            written = i.written;
            ready = i.ready;
            seen = λ j w. elim (set-cases c a j _ s.threads Place.passed w) [
              | inl (z, u) ↦ absurd (omega (arith, ap rank u))
              | inr (d, u) ↦ no_other j d u
            ];
            to_come = λ j h.
                ap (λ t. t.place) (set_other c a j _ s.threads (λ z. omega arith)) ∙ i.to_come j h;
          }
          from (Flight.held j h q none_pending same) counted waits = absurd (
              omega (
                arith,
                ap rank e,
                ap rank q,
                one_place c s careful a j l h (omega (arith, ap rank e)) (omega (arith, ap rank q)),
              ))
          from (Flight.handed j h pending same) counted waits =
              let low = kept-rank c s careful j pending in
              absurd (
                omega (
                  arith,
                  ap rank e,
                  low,
                  one_place c s careful a j l h (omega (arith, ap rank e)) (omega (arith, low)),
                ))

      pub hand_over-IsStation :
          (a : ℕ)
          → a < s.sender.started
          → (s.threads a).place ≡ Place.sending
          → IsStation c k db id log (hand_over c a s)
      unfolding hand_over
      hand_over-IsStation a l e = from i.flight i.counted i.waits
        where
          from :
              (f : Flight c (log.tuple_at s.sent.count) s.sender.started s.threads s.pending)
              → log.count ≡ s.sent.count + flying c f + i.queue.count
              → ((n : ℕ)
                  → n < i.queue.count
                  → IsSame c (i.queue.tuple_at n) (log.tuple_at (s.sent.count + flying c f + n)))
              → IsStation c k db id log (hand_over c a s)
          from (Flight.nothing none_pending n) counted waits = absurd (n a l e)
          from (Flight.held j h q none_pending same) counted waits =
              let (z, w) =
                one_place c s careful j a h l (omega (arith, ap rank q))
                  (omega (arith, ap rank e)) in
              record {
                queue = i.queue;
                producing = i.producing;
                flight = Flight.handed a l (ap (λ p. p ++ (a ∷ [])) none_pending) (λ x b.
                    ap (λ t. t.seed x) (set_same c a a _ s.threads refl)
                    ∙ ap (λ t. (s.threads t).seed x) (sym z)
                    ∙ same x b);
                counted = counted;
                waits = waits;
                written = i.written;
                ready = i.ready;
                seen = λ j w. elim (set-cases c a j _ s.threads Place.passed w) [
                  | inl (z, u) ↦ absurd (omega (arith, ap rank u))
                  | inr (d, u) ↦ i.seen j u
                ];
                to_come = λ j h.
                    ap (λ t. t.place) (set_other c a j _ s.threads (λ z. omega arith))
                    ∙ i.to_come j h;
              }
          from (Flight.handed j h pending same) counted waits =
              let low = kept-rank c s careful j pending in
              absurd (
                omega (
                  arith,
                  ap rank e,
                  low,
                  one_place c s careful a j l h (omega (arith, ap rank e)) (omega (arith, low)),
                ))

      pub write-IsStation :
          (a : ℕ) (rest : List ℕ)
          → s.pending ≡ a ∷ rest
          → IsStation c k db id log (write c a rest s)
      unfolding write front behind
      write-IsStation a rest e = from i.flight i.counted i.waits
        where
          from :
              (f : Flight c (log.tuple_at s.sent.count) s.sender.started s.threads s.pending)
              → log.count ≡ s.sent.count + flying c f + i.queue.count
              → ((n : ℕ)
                  → n < i.queue.count
                  → IsSame c (i.queue.tuple_at n) (log.tuple_at (s.sent.count + flying c f + n)))
              → IsStation c k db id log (write c a rest s)
          from (Flight.nothing none_pending n) counted waits =
              absurd (omega (arith, ap length (sym none_pending ∙ e)))
          from (Flight.held j h q none_pending same) counted waits =
              absurd (omega (arith, ap length (sym none_pending ∙ e)))
          from (Flight.handed j h pending same) counted waits =
              let low = kept-rank c s careful j pending in
              record {
                queue = i.queue;
                producing = i.producing;
                flight = Flight.nothing (ap behind (sym e ∙ pending)) (λ t l p. omega (
                  arith,
                  low,
                  ap rank p,
                  one_place c s careful j t h l (omega (arith, low)) (omega (arith, ap rank p)),
                ));
                counted = omega (arith, counted);
                waits = λ n h x b. waits n h x b ∙ ap (λ m. log.tuple_at m x) (omega arith);
                written = λ n h x b. elim (ℕ_discrete n s.sent.count) [
                  | yes z ↦
                      ap (λ t. t x) (push_here (s.threads a).seed s.sent n z)
                      ∙ ap (λ t. (s.threads t).seed x) (ap front (sym e ∙ pending))
                      ∙ same x b
                      ∙ ap (λ m. log.tuple_at m x) (sym z)
                  | no d ↦
                      ap (λ t. t x) (push_before (s.threads a).seed s.sent n d)
                      ∙ i.written n (omega (arith, d)) x b
                ];
                ready = i.ready;
                seen = i.seen;
                to_come = i.to_come;
              }
