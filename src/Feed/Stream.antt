-- ===== src/Feed/Stream.antt =====
-- The tuples that a peer server finds in the bytes of its connection to the center server.
use cip_pir.Base.{ℕ, zero, suc, ◌+◌, ◌-◌, ◌*◌, ◌<◌, ◌≡◌, some, Bool, true, arith, refl, ap, ◌∙◌}
use cip_pir.Base.Memory.{Buffer}
use cip_pir.Config.{Config}
use cip_pir.Seeds.{Pool}
use cip_pir.Seeds.Slots.{IsRing, tuple_size}
use cip_pir.Seeds.Queue.{Queue, Represents, push, push_here, push_before}
use cip_pir.Batch.Fills.{push_all, count-push_all}
use cip_pir.Feed.{taken, stream_message, precompute_remote}
use cip_pir.Feed.Fills.{precompute_remote-Represents}

taken-add :
    (size : ℕ) (extra : ℕ → ℕ) (i : ℕ) → taken (λ t. size + extra t) i ≡ i * size + taken extra i
unfolding taken
taken-add size extra zero = omega arith
taken-add size extra (suc i) = omega (arith, taken-add size extra i)

-- The tuples that were there stay where they are.
pub push_all-old :
    (tuple : ℕ → Buffer) (left i : ℕ) (q : Queue) (n : ℕ)
    → n < q.count
    → (push_all tuple left i q).tuple_at n ≡ q.tuple_at n
unfolding push_all
push_all-old tuple zero i q n h = refl
push_all-old tuple (suc left) i q n h =
    push_all-old tuple left (i + 1) (push (tuple i) q) n (omega arith)
    ∙ push_before (tuple i) q n (λ e. omega arith)

-- The new ones stand behind them, in their order.
pub push_all-new :
    (tuple : ℕ → Buffer) (left i : ℕ) (q : Queue) (n : ℕ)
    → n < left
    → (push_all tuple left i q).tuple_at (q.count + n) ≡ tuple (i + n)
unfolding push_all
push_all-new tuple zero i q n h = absurd (omega arith)
push_all-new tuple (suc left) i q zero h =
    push_all-old tuple left (i + 1) (push (tuple i) q) (q.count + 0) (omega arith)
    ∙ push_here (tuple i) q (q.count + 0) (omega arith)
    ∙ ap tuple (omega arith)
push_all-new tuple (suc left) i q (suc n) h =
    ap (push_all tuple left (i + 1) (push (tuple i) q)).tuple_at (omega arith)
    ∙ push_all-new tuple left (i + 1) (push (tuple i) q) n (omega arith)
    ∙ ap tuple (omega arith)

module _ (c : Config) (v : IsRing c) where
  -- For a pool that holds a queue, and reads that succeed after a first write that does, read `t`
  -- with `extra t` bytes more than a tuple has: `precompute` leaves a pool that holds the queue
  -- and, in all slots that were free, the bytes of the stream. The tuple of read `n` begins behind
  -- the `n` tuples before it and all surplus bytes that those reads took: these bytes are lost.
  pub precompute_remote-stream_message :
      (id : ℕ) (ends : Bool) (stream : Buffer) (extra : ℕ → ℕ) (p : Pool) (q : Queue)
      → Represents c p q
      → let fed =
          precompute_remote c id true ends
            (λ i. some (stream_message stream (λ t. tuple_size c + extra t) i))
            p in
        (q' : Queue) × Represents c fed.pool q'
        × (q'.count ≡ c.number_seeds)
        × ((n : ℕ) → n < q.count → q'.tuple_at n ≡ q.tuple_at n)
        × ((n j : ℕ)
            → n < c.number_seeds - q.count
            → j < tuple_size c
            → q'.tuple_at (q.count + n) j ≡ stream (n * tuple_size c + taken extra n + j))
        × (fed.terminated ≡ ends)
  precompute_remote-stream_message id ends stream extra p q r =
      let sizes : ℕ → ℕ = λ t. tuple_size c + extra t in
      let tuple = stream_message stream sizes in
      let (holds, terminated) = precompute_remote-Represents c v id true ends tuple p q r in
      let left = c.number_seeds - q.count in
      (
        push_all tuple left 0 q,
        holds,
        count-push_all tuple left 0 q ∙ omega (arith, r.bounded),
        λ n h. push_all-old tuple left 0 q n h,
        λ n j h l.
            ap (λ b. b j) (push_all-new tuple left 0 q n h)
            ∙ ap (λ t. stream (taken sizes t + j)) (omega arith)
            ∙ ap (λ t. stream (t + j)) (taken-add (tuple_size c) extra n),
        terminated,
      )
