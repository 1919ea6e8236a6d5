-- ===== src/Feed/Sent.antt =====
-- A peer server that is fed by a worker of the center server.
use cip_pir.Base.{
  ℕ, zero, suc, ◌+◌, ◌-◌, ◌*◌, ◌≤◌, ◌<◌, ◌≡◌, some, Bool, true, arith, refl, ap, ◌∙◌, List,
  ℕ_discrete,
}
use cip_pir.Base.Memory.{Buffer}
use cip_pir.Config.{Config}
use cip_pir.Server.{Crypto}
use cip_pir.Seeds.{Pool}
use cip_pir.Seeds.Slots.{IsRing, tuple_size}
use cip_pir.Seeds.Queue.{Queue, Represents, push_here, push_before}
use cip_pir.Feed.{taken, stream_message, precompute_remote}
use cip_pir.Feed.Stream.{precompute_remote-stream_message}
use cip_pir.Transfers.{Station, Step}
use cip_pir.Transfers.Flight.{IsSame}
use cip_pir.Transfers.Careful.{made_of, logged, RunsCarefully}
use cip_pir.Transfers.Order.{RunsCarefully-IsSame}

none_taken : (n : ℕ) → taken (λ t. 0) n ≡ 0
unfolding taken
none_taken zero = refl
none_taken (suc n) = omega (arith, none_taken n)

module _ (c : Config) (k : Crypto) (db : Buffer) (id : ℕ) where
  -- The tuple of a seed, with the block that `precompute` makes for it.
  abbrev pub IsMadeOf : Buffer → Type 0
  IsMadeOf t = (seed : List ℕ) × (t ≡ made_of c k db id seed)

  AllMade : Queue → Type 0
  AllMade log = (n : ℕ) → n < log.count → IsMadeOf (log.tuple_at n)

  logged-AllMade :
      {s t : Station} (log : Queue) (e : Step c k db id s t)
      → AllMade log
      → AllMade (logged c k db id e log)
  unfolding AllMade
  logged-AllMade log (Step.goes_on i l p a) all = all
  logged-AllMade log (Step.ends i l p a) all = all
  logged-AllMade log (Step.sees i l p a) all = all
  logged-AllMade log (Step.fetches i l p) all = all
  logged-AllMade log (Step.hands_over i l p) all = all
  logged-AllMade log (Step.writes i rest e p) all = all
  logged-AllMade log (Step.switches val sender d e) all = all
  logged-AllMade log (Step.constructs n) all = all
  logged-AllMade log (Step.finds_room h l) all = all
  logged-AllMade log (Step.finds_full h l) all = all
  logged-AllMade log (Step.stores seed h) all = λ n l. elim (ℕ_discrete n log.count) [
    | yes z ↦ (seed, push_here (made_of c k db id seed) log n z)
    | no d ↦ (
      (all n (omega (arith, d))).0,
      push_before (made_of c k db id seed) log n d ∙ (all n (omega (arith, d))).1,
    )
  ]
  logged-AllMade log (Step.leaves h) all = all

  RunsCarefully-AllMade :
      {fresh : Buffer} {fresh_seed : ℕ → Buffer} {log : Queue} {s : Station}
      → RunsCarefully c k db id fresh fresh_seed log s
      → AllMade log
  unfolding AllMade
  RunsCarefully-AllMade RunsCarefully.starts = λ n h. absurd (omega arith)
  RunsCarefully-AllMade (RunsCarefully.later r e h) = logged-AllMade _ e (RunsCarefully-AllMade r)

  -- If a worker of the center server has written enough tuples in a careful run, the connection has
  -- the bytes that it wrote, every read takes one tuple, and the first write of `precompute`
  -- succeeds: the peer server's pool is full, it holds the tuples that it held before and then
  -- those that the worker stored first, in their order, and each of these is a seed with the block
  -- that `precompute` makes for it.
  pub RunsCarefully-precompute_remote :
      IsRing c
      → {fresh : Buffer} {fresh_seed : ℕ → Buffer} {log : Queue} {s : Station}
      → RunsCarefully c k db id fresh fresh_seed log s
      → (ends : Bool) (stream : Buffer) (p : Pool) (q : Queue) → Represents c p q
      → ((n j : ℕ)
          → n < s.sent.count
          → j < tuple_size c
          → stream (n * tuple_size c + j) ≡ s.sent.tuple_at n j)
      → c.number_seeds - q.count ≤ s.sent.count
      → let fed =
          precompute_remote c id true ends
            (λ i. some (stream_message stream (λ t. tuple_size c + 0) i))
            p in
        (q' : Queue) × Represents c fed.pool q'
        × (q'.count ≡ c.number_seeds)
        × ((n : ℕ) → n < q.count → q'.tuple_at n ≡ q.tuple_at n)
        × ((n : ℕ)
            → n < c.number_seeds - q.count
            → IsMadeOf (log.tuple_at n) × IsSame c (q'.tuple_at (q.count + n)) (log.tuple_at n))
  unfolding AllMade
  RunsCarefully-precompute_remote v {log = log} {s = s} r ends stream p q holds written enough =
      let (same, stored, rest) = RunsCarefully-IsSame c k db id v r in
      let (q', holds', full, old, new, terminated) =
        precompute_remote-stream_message c v id ends stream (λ t. 0) p q holds in
      (
        q',
        holds',
        full,
        old,
        λ n h. (
          RunsCarefully-AllMade r n (omega (arith, stored)),
          λ j l.
              new n j h l
              ∙ ap (λ t. stream (n * tuple_size c + t + j)) (none_taken n)
              ∙ ap (λ t. stream (t + j)) (omega arith)
              ∙ written n j (omega arith) l
              ∙ same n (omega arith) j l,
        ),
      )
