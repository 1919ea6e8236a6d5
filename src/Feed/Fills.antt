-- ===== src/Feed/Fills.antt =====
-- What the messages of the center server do to the pool.
use cip_pir.Base.{
  ℕ, zero, suc, ◌+◌, ◌-◌, ◌≤◌, ◌<◌, ◌≡◌, Option, none, some, Bool, true, false, arith, refl, sym,
  ap, ◌∙◌, fun_ext, u32, dec_lt, dec_le, inr, if◌then◌else◌, ◌&&◌,
}
use mathlib.Core.Path.{subst}
use cip_pir.Base.Memory.{Buffer, copy, advance, copy-inside, copy-outside}
use cip_pir.Base.Cases.{yes_case, no_case}
use cip_pir.Config.{Config, seed_bytes}
use cip_pir.Seeds.{Pool, next_slot, store_tuple}
use cip_pir.Seeds.Slots.{IsRing}
use cip_pir.Seeds.Queue.{Queue, Represents, push, tuple_of, store_tuple-Represents}
use cip_pir.Batch.Fills.{push_all}
use cip_pir.Feed.{receive_tuple, receive_from, precompute_remote}

copy-two :
    (m b : Buffer) (k n l : ℕ) → copy (copy m k b n) (k + n) (advance b n) l ≡ copy m k b (n + l)
copy-two m b k n l = fun_ext λ i. elim (dec_le (k + n) i) [
  | yes h ↦ elim (dec_lt i (k + n + l)) [
    | yes g ↦
        copy-inside (copy m k b n) (advance b n) (k + n) l i (i - (k + n)) (omega arith)
          (omega arith)
        ∙ ap b (omega arith)
        ∙ sym (copy-inside m b k (n + l) i (i - k) (omega arith) (omega arith))
    | no g ↦
        copy-outside (copy m k b n) (advance b n) (k + n) l i (inr (omega arith))
        ∙ copy-outside m b k n i (inr (omega arith))
        ∙ sym (copy-outside m b k (n + l) i (inr (omega arith)))
  ]
  | no h ↦ ground arith
]

copy-own : (m : Buffer) (k n : ℕ) → copy m k (advance m k) n ≡ m
copy-own m k n = fun_ext λ i. elim (dec_le k i) [
  | yes h ↦ (let e : k + (i - k) ≡ i = omega arith in ground (arith, ap m e))
  | no h ↦ ground arith
]

module _ (c : Config) where
  -- What joins the queue with a message: its tuple, or after a failed read what stands in the slot.
  abbrev pub tuple_in : Option Buffer → Pool → Buffer
  tuple_in message p = elim message [
    | some tuple ↦ tuple
    | none ↦ advance p.memory p.current_pre_seed
  ]

  tuple_of-advance : (b : Buffer) → tuple_of c b (advance b (seed_bytes c)) ≡ b
  tuple_of-advance b = fun_ext λ j. elim (dec_lt j (seed_bytes c)) [
    | yes h ↦ ground arith
    | no h ↦ (let e : seed_bytes c + (j - seed_bytes c) ≡ j = omega arith in ground (arith, ap b e))
  ]

  receive_tuple-store_tuple :
      (message : Option Buffer) (p : Pool)
      → receive_tuple c message p
        ≡ store_tuple c (tuple_in message p) (advance (tuple_in message p) (seed_bytes c)) p
  unfolding receive_tuple store_tuple
  receive_tuple-store_tuple (some b) p =
      ap
        (λ m. record {
          memory = m;
          current_seed = p.current_seed;
          current_pre_seed = next_slot c p.current_pre_seed;
          available = u32 (p.available + 1);
        })
        (sym (copy-two p.memory b p.current_pre_seed (seed_bytes c) c.block_size))
  receive_tuple-store_tuple none p =
      ap store (sym (copy-own p.memory p.current_pre_seed (seed_bytes c + c.block_size)))
      ∙ ap store (
          sym (
            copy-two p.memory (advance p.memory p.current_pre_seed) p.current_pre_seed
              (seed_bytes c) c.block_size))
    where
      store : Buffer → Pool
      store m = record {
        memory = m;
        current_seed = p.current_seed;
        current_pre_seed = next_slot c p.current_pre_seed;
        available = u32 (p.available + 1);
      }

  module _ (v : IsRing c) where
    -- A read with a free slot adds a tuple to the queue, also one that fails: then it is what
    -- stood in the slot before.
    pub receive_tuple-Represents :
        (message : Option Buffer) (p : Pool) (q : Queue)
        → Represents c p q
        → q.count < c.number_seeds
        → Represents c (receive_tuple c message p) (push (tuple_in message p) q)
    receive_tuple-Represents message p q r free =
        subst (λ z. Represents c z (push (tuple_in message p) q))
          (sym (receive_tuple-store_tuple message p))
          (subst
            (λ t.
              Represents c
                (store_tuple c (tuple_in message p) (advance (tuple_in message p) (seed_bytes c)) p)
                (push t q))
            (tuple_of-advance (tuple_in message p))
            (store_tuple-Represents c v p q r (tuple_in message p)
              (advance (tuple_in message p) (seed_bytes c)) free))

    receive_from-full :
        (messages : ℕ → Option Buffer) (fuel i : ℕ) (p : Pool)
        → c.number_seeds ≤ p.available
        → receive_from c fuel messages i p ≡ p
    unfolding receive_from
    receive_from-full messages zero i p h = refl
    receive_from-full messages (suc fuel) i p h =
        no_case (dec_lt p.available c.number_seeds) (λ l. omega arith) _ _

    receive_from-more :
        (messages : ℕ → Option Buffer) (fuel i : ℕ) (p : Pool)
        → p.available < c.number_seeds
        → receive_from c (suc fuel) messages i p
          ≡ receive_from c fuel messages (i + 1) (receive_tuple c (messages i) p)
    unfolding receive_from
    receive_from-more messages fuel i p h = yes_case (dec_lt p.available c.number_seeds) h _ _

    receive_from-Represents :
        (tuple : ℕ → Buffer) (left fuel i : ℕ) (p : Pool) (q : Queue)
        → Represents c p q
        → q.count + left ≡ c.number_seeds
        → left ≤ fuel
        → Represents c (receive_from c fuel (λ t. some (tuple t)) i p) (push_all tuple left i q)
    unfolding push_all
    receive_from-Represents tuple zero fuel i p q r e h =
        subst (λ z. Represents c z q)
          (sym (receive_from-full (λ t. some (tuple t)) fuel i p (omega (arith, r.counted)))) r
    receive_from-Represents tuple (suc left) zero i p q r e h = absurd (omega arith)
    receive_from-Represents tuple (suc left) (suc fuel) i p q r e h =
        subst (λ z. Represents c z (push_all tuple left (i + 1) (push (tuple i) q)))
          (sym (receive_from-more (λ t. some (tuple t)) fuel i p (omega (arith, r.counted))))
          (receive_from-Represents tuple left fuel (i + 1) (receive_tuple c (some (tuple i)) p)
            (push (tuple i) q) (receive_tuple-Represents (some (tuple i)) p q r (omega arith))
            (omega arith) (omega arith))

    -- For a pool that holds a queue, and reads that succeed: `precompute` fills all free slots with
    -- the tuples of the messages, in their order, if its first write succeeds, and changes nothing
    -- if it fails; it sets `threadTerminated` only if both its writes succeed.
    pub precompute_remote-Represents :
        (id : ℕ) (starts ends : Bool) (tuple : ℕ → Buffer) (p : Pool) (q : Queue)
        → Represents c p q
        → let fed = precompute_remote c id starts ends (λ t. some (tuple t)) p in
          Represents c fed.pool
            (if starts then push_all tuple (c.number_seeds - q.count) 0 q else q)
          × (fed.terminated ≡ starts && ends)
    unfolding precompute_remote
    precompute_remote-Represents id true ends tuple p q r = (
      receive_from-Represents tuple (c.number_seeds - q.count) c.number_seeds 0 p q r
          (omega (arith, r.bounded)) (omega arith),
      refl,
    )
    precompute_remote-Represents id false ends tuple p q r = (r, refl)
