-- ===== src/Transfers/Steps.antt =====
-- What the steps of such a run do to what has been stored and sent.
use cip_pir.Base.{
  ℕ, ◌+◌, ◌<◌, ◌≤◌, ◌≡◌, ◌≢◌, inl, inr, arith, ap, sym, ◌∙◌, List, ℕ_discrete, Bool, true, some,
}
use cip_pir.Base.Memory.{Buffer}
use cip_pir.Config.{Config}
use cip_pir.Server.{Crypto}
use cip_pir.Seeds.Slots.{IsRing}
use cip_pir.Seeds.Queue.{Queue, push, push_here, push_before}
use cip_pir.Center.{Worker, store_and_test}
use cip_pir.Center.Producing.{IsProducing, store_and_test-IsProducing}
use cip_pir.Control.{Sender, set_active}
use cip_pir.Control.Starts.{set_active-started}
use cip_pir.Transfers.{Place, Station, move, switch, produce}
use cip_pir.Transfers.Flight.{
  IsCareful, IsSame, flying, set_other, set-cases, move-Flight, switch-Flight, later_Flight,
}
use cip_pir.Transfers.Careful.{made_of, IsStation}

module _ (c : Config) (k : Crypto) (db : Buffer) (id : ℕ) where
  module _ (v : IsRing c) where
    module _ (log : Queue) (s : Station) (i : IsStation c k db id log s)
        (careful : IsCareful c s) where
      -- A thread that goes from the test or the wait to another place than before `sendTuple`.
      pub move-IsStation :
          (a : ℕ) (p : Place)
          → a < s.sender.started
          → (s.threads a).place ≢ Place.ended
          → (s.threads a).place ≢ Place.sending
          → p ≢ Place.sending
          → (p ≡ Place.passed → 1 ≤ i.queue.count)
          → IsStation c k db id log (move c a p s)
      unfolding move
      move-IsStation a p l live away goal passes =
          let (g, same) = move-Flight c _ a p s l careful.alone live away goal i.flight in
          record {
            queue = i.queue;
            producing = i.producing;
            flight = g;
            counted = omega (arith, i.counted, same);
            waits = λ n h x b.
                i.waits n h x b ∙ ap (λ z. log.tuple_at (s.sent.count + z + n) x) (sym same);
            written = i.written;
            ready = i.ready;
            seen = λ j e. elim (set-cases c a j _ s.threads Place.passed e) [
              | inl (z, w) ↦ passes w
              | inr (d, w) ↦ i.seen j w
            ];
            to_come = λ j h.
                ap (λ t. t.place) (set_other c a j _ s.threads (λ z. omega arith)) ∙ i.to_come j h;
          }

      pub switch-IsStation :
          (val : Bool) (sender : Sender)
          → s.worker.constructed ≡ true
          → set_active val s.sender ≡ some sender
          → IsStation c k db id log (switch c sender s)
      unfolding switch
      switch-IsStation val sender d e =
          let more = set_active-started val s.sender sender e in
          let (f, same) =
            switch-Flight c _ s.threads s.pending s.sender.started sender.started more i.to_come
              i.flight in
          record {
            queue = i.queue;
            producing = i.producing;
            flight = f;
            counted = omega (arith, i.counted, same);
            waits = λ n h x b.
                i.waits n h x b ∙ ap (λ z. log.tuple_at (s.sent.count + z + n) x) (sym same);
            written = i.written;
            ready = λ h. d;
            seen = i.seen;
            to_come = λ j h. i.to_come j (omega (arith, more));
          }

      -- A step of a thread of `precompute` that stores nothing.
      pub produce-IsStation :
          (f : Worker → Worker)
          → IsProducing c (f s.worker) i.queue
          → (s.worker.constructed ≡ true → (f s.worker).constructed ≡ true)
          → IsStation c k db id log (produce c f s)
      unfolding produce
      produce-IsStation f p still = record {
        queue = i.queue;
        producing = p;
        flight = i.flight;
        counted = i.counted;
        waits = i.waits;
        written = i.written;
        ready = λ h. still (i.ready h);
        seen = i.seen;
        to_come = i.to_come;
      }

      more_written :
          (t : Buffer)
          → (n : ℕ) → n < i.queue.count + 1
          → IsSame c
              ((push t i.queue).tuple_at n)
              ((push t log).tuple_at (s.sent.count + flying c i.flight + n))
      more_written t n h x b = elim (ℕ_discrete n i.queue.count) [
        | yes z ↦
            ap (λ y. y x)
              (push_here t i.queue n z
                ∙ sym (
                    push_here t log (s.sent.count + flying c i.flight + n)
                      (omega (arith, z, i.counted))))
        | no d ↦
            ap (λ y. y x) (push_before t i.queue n d)
            ∙ i.waits n (omega (arith, d)) x b
            ∙ ap (λ y. y x)
                (sym (
                  push_before t log (s.sent.count + flying c i.flight + n)
                    (λ z. omega (arith, z, d, i.counted))))
      ]

      pub store-IsStation :
          (seed : List ℕ)
          → 1 ≤ s.worker.storing
          → IsStation c k db id
              (push (made_of c k db id seed) log)
              (produce c (store_and_test c k db id seed) s)
      unfolding produce store_and_test
      store-IsStation seed h =
          let (g, same) =
            later_Flight c (log.tuple_at s.sent.count)
              ((push (made_of c k db id seed) log).tuple_at s.sent.count) s.sender.started s.threads
              s.pending i.flight
              (λ f x b.
                ap (λ y. y x)
                  (sym (
                    push_before (made_of c k db id seed) log s.sent.count
                      (λ z. omega (arith, z, f, i.counted))))) in
          record {
            queue = push (made_of c k db id seed) i.queue;
            producing = store_and_test-IsProducing c s.worker i.queue i.producing v k db id seed h;
            flight = g;
            counted = omega (arith, i.counted, same);
            waits = λ n l x b.
                more_written (made_of c k db id seed) n l x b
                ∙ ap (λ z. (push (made_of c k db id seed) log).tuple_at (s.sent.count + z + n) x)
                    (sym same);
            written = λ n l x b.
                i.written n l x b
                ∙ ap (λ y. y x)
                    (sym (
                      push_before (made_of c k db id seed) log n
                        (λ z. omega (arith, z, i.counted))));
            ready = i.ready;
            seen = λ j e. omega (arith, i.seen j e);
            to_come = i.to_come;
          }
