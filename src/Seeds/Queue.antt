-- ===== src/Seeds/Queue.antt =====
-- The ring as a queue of tuples: what `store_tuple` puts in comes out of `next_seed` in the order
-- in which it went in, with the bytes that went in.
use native.Mathlib.Nat.{mod-eq_of_lt}
use cip_pir.Config.{Config, seed_bytes}
use cip_pir.Base.Memory.{copy-inside, copy-outside, Buffer, advance, copy}
use cip_pir.Base.{
  ℕ, suc, ◌+◌, ◌-◌, ◌*◌, ◌≤◌, ◌<◌, ◌^◌, ◌≡◌, ◌≢◌, ◌⊎◌, inl, inr, arith, if◌then◌else◌, ltb, ◌==◌,
  dec_lt, ap, sym, ◌∙◌, ℕ_discrete, some, none, u32, refl,
}
use cip_pir.Seeds.{Pool, empty_pool, store_tuple, take_tuple, copied_tuple, next_seed, next_slot}
use cip_pir.Base.Slots.{slots_apart, times_le}
use cip_pir.Seeds.Slots.{
  IsRing, tuple_size, wrapped, next_slot-times, wrapped-lt, wrapped-suc, wrapped-head,
  wrapped-other, wrapped_here,
}

-- The waiting tuples, counted from the oldest.
pub record Queue : Type 0 where
  pub count : ℕ
  pub tuple_at : ℕ → Buffer

abbrev pub empty_queue : Queue
empty_queue = record { count = 0; tuple_at = λ k i. 0 }

abbrev pub push : Buffer → Queue → Queue
push t q = record { count = q.count + 1; tuple_at = λ k. if k == q.count then t else q.tuple_at k }

abbrev pub pop : Queue → Queue
pop q = record { count = q.count - 1; tuple_at = λ k. q.tuple_at (suc k) }

zero_times : (s : ℕ) → 0 ≡ 0 * s
zero_times s = omega arith

pub push_here : (t : Buffer) (q : Queue) (k : ℕ) → k ≡ q.count → (push t q).tuple_at k ≡ t
push_here t q k e = ground arith

pub push_before :
    (t : Buffer) (q : Queue) (k : ℕ) → k ≢ q.count → (push t q).tuple_at k ≡ q.tuple_at k
push_before t q k n = ground arith

module _ (c : Config) where
  -- The bytes of a tuple: the seed, then the block.
  abbrev pub tuple_of : Buffer → Buffer → Buffer
  tuple_of seed block j = if ltb j (seed_bytes c) then seed j else block (j - seed_bytes c)

  -- The queue that stands in a pool, if its oldest tuple stands in slot `head`.
  pub record Represents (p : Pool) (q : Queue) : Type 0 where
    pub head : ℕ
    pub head_in : head < c.number_seeds
    pub read_at : p.current_seed ≡ head * tuple_size c
    pub write_at : p.current_pre_seed ≡ wrapped c.number_seeds (head + q.count) * tuple_size c
    pub counted : p.available ≡ q.count
    pub bounded : q.count ≤ c.number_seeds
    pub bytes :
        (k j : ℕ)
        → k < q.count
        → j < tuple_size c
        → p.memory (wrapped c.number_seeds (head + k) * tuple_size c + j) ≡ q.tuple_at k j

  module _ (seed block : Buffer) (p : Pool) where
    store_here :
        (j : ℕ)
        → j < tuple_size c
        → (store_tuple c seed block p).memory (p.current_pre_seed + j) ≡ tuple_of seed block j
    unfolding store_tuple
    store_here j l = elim (dec_lt j (seed_bytes c)) [
      | yes h ↦
          copy-outside (copy p.memory p.current_pre_seed seed (seed_bytes c)) block
            (p.current_pre_seed + seed_bytes c) c.block_size (p.current_pre_seed + j)
            (inl (omega arith))
          ∙ copy-inside p.memory seed p.current_pre_seed (seed_bytes c) (p.current_pre_seed + j) j
              refl h
          ∙ ground arith
      | no h ↦
          copy-inside (copy p.memory p.current_pre_seed seed (seed_bytes c)) block
            (p.current_pre_seed + seed_bytes c) c.block_size (p.current_pre_seed + j)
            (j - seed_bytes c) (omega arith) (omega arith)
          ∙ ground arith
    ]

    store_apart :
        (i : ℕ)
        → (i < p.current_pre_seed) ⊎ (p.current_pre_seed + tuple_size c ≤ i)
        → (store_tuple c seed block p).memory i ≡ p.memory i
    unfolding store_tuple
    store_apart i h =
        copy-outside (copy p.memory p.current_pre_seed seed (seed_bytes c)) block
          (p.current_pre_seed + seed_bytes c) c.block_size i (ground arith)
        ∙ copy-outside p.memory seed p.current_pre_seed (seed_bytes c) i (ground arith)

  pub empty_pool-Represents :
      IsRing c → (fresh : Buffer) → Represents (empty_pool c fresh) empty_queue
  unfolding empty_pool
  empty_pool-Represents v fresh = record {
    head = 0;
    head_in = v.some_slot;
    read_at = omega arith;
    write_at =
        zero_times (tuple_size c)
        ∙ ap (λ t. t * tuple_size c) (wrapped_here c.number_seeds 0 v.some_slot);
    counted = refl;
    bounded = omega arith;
    bytes = λ k j a l. absurd (omega arith);
  }

  module _ (v : IsRing c) (p : Pool) (q : Queue) (r : Represents p q) where
    abbrev N : ℕ
    N = c.number_seeds

    count_fits : q.count < N → u32 (p.available + 1) ≡ q.count + 1
    count_fits h =
        ap (λ t. u32 (t + 1)) r.counted
        ∙ mod-eq_of_lt (omega (arith, v.small_ring, times_le N (tuple_size c) v.some_byte))

    apart_at :
        {x s : ℕ}
        → p.current_pre_seed ≡ s
        → (x < s) ⊎ (s + tuple_size c ≤ x)
        → (x < p.current_pre_seed) ⊎ (p.current_pre_seed + tuple_size c ≤ x)
    apart_at e h = ground arith

    store-bytes :
        (seed block : Buffer)
        → q.count < N
        → (k j : ℕ) → k < q.count + 1
        → j < tuple_size c
        → (store_tuple c seed block p).memory (wrapped N (r.head + k) * tuple_size c + j)
          ≡ (push (tuple_of seed block) q).tuple_at k j
    store-bytes seed block free k j h l = elim (ℕ_discrete k q.count) [
      | yes e ↦
          ap (store_tuple c seed block p).memory (
            ap (λ t. wrapped N (r.head + t) * tuple_size c + j) e
            ∙ ap (λ t. t + j) (sym r.write_at))
          ∙ store_here seed block p j l
          ∙ ap (λ f. f j) (sym (push_here (tuple_of seed block) q k e))
      | no n ↦
          store_apart seed block p _ (
            apart_at r.write_at (
              slots_apart _ _ (tuple_size c) j
                (wrapped-other N r.head r.head_in k q.count (omega arith) free) l))
          ∙ r.bytes k j (omega arith) l
          ∙ ap (λ f. f j) (sym (push_before (tuple_of seed block) q k n))
    ]

    -- A tuple that is stored in a pool with a free slot joins the queue at its end.
    pub store_tuple-Represents :
        (seed block : Buffer)
        → q.count < N
        → Represents (store_tuple c seed block p) (push (tuple_of seed block) q)
    unfolding store_tuple
    store_tuple-Represents seed block free = record {
      head = r.head;
      head_in = r.head_in;
      read_at = r.read_at;
      write_at =
          ap (next_slot c) r.write_at
          ∙ next_slot-times c v (wrapped N (r.head + q.count))
              (wrapped-lt N r.head r.head_in q.count r.bounded)
          ∙ ap (λ t. t * tuple_size c) (wrapped-suc N r.head r.head_in q.count free);
      counted = count_fits free;
      bounded = omega arith;
      bytes = store-bytes seed block free;
    }

    -- The bytes that are copied are those of the oldest tuple.
    pub copied_tuple-first :
        (seed : Buffer)
        → 1 ≤ q.count
        → (j : ℕ) → j < tuple_size c
        → copied_tuple c seed p j ≡ q.tuple_at 0 j
    copied_tuple-first seed h j l =
        copy-inside seed (advance p.memory p.current_seed) 0 (tuple_size c) j j (omega arith) l
        ∙ ap p.memory (
            ap (λ t. t + j)
              (r.read_at ∙ ap (λ t. t * tuple_size c) (wrapped_here N r.head r.head_in)))
        ∙ r.bytes 0 j (omega arith) l

    count_less : 1 ≤ q.count → u32 (p.available + 2 ^ 32 - 1) ≡ q.count - 1
    count_less h =
        omega (arith, r.counted, r.bounded, v.small_ring, times_le N (tuple_size c) v.some_byte)

    -- Taking a tuple from a pool with a waiting one leaves the queue without its oldest.
    pub take_tuple-Represents : 1 ≤ q.count → Represents (take_tuple c p) (pop q)
    unfolding take_tuple
    take_tuple-Represents h = record {
      head = wrapped N (r.head + 1);
      head_in = wrapped-lt N r.head r.head_in 1 v.some_slot;
      read_at =
          ap (next_slot c) r.read_at
          ∙ next_slot-times c v r.head r.head_in
          ∙ ap (λ t. wrapped N t * tuple_size c) (omega arith);
      write_at =
          r.write_at
          ∙ ap (λ t. t * tuple_size c)
              (ap (wrapped N) (omega arith)
                ∙ sym (wrapped-head N r.head r.head_in (q.count - 1) (omega (arith, r.bounded))));
      counted = count_less h;
      bounded = omega (arith, r.bounded);
      bytes = λ k j a l.
          ap (λ t. p.memory (t * tuple_size c + j))
            (wrapped-head N r.head r.head_in k (omega (arith, r.bounded)))
          ∙ r.bytes (suc k) j (omega arith) l;
    }

    -- `next_seed` waits on an empty queue; otherwise it gives the bytes of the oldest tuple and
    -- leaves a pool that holds the others, in their order.
    pub next_seed-Represents :
        (seed : Buffer)
        → ((q.count ≡ 0) × (next_seed c seed p ≡ none))
          ⊎ ((1 ≤ q.count)
              × (t : Buffer) × (rest : Pool) × (next_seed c seed p ≡ some (t, rest))
              × ((j : ℕ) → j < tuple_size c → t j ≡ q.tuple_at 0 j)
              × Represents rest (pop q))
    unfolding next_seed
    next_seed-Represents seed = elim (dec_lt 0 q.count) [
      | yes h ↦ inr (
        h,
        copied_tuple c seed p,
        take_tuple c p,
        ground (arith, r.counted),
        copied_tuple-first seed h,
        take_tuple-Represents h,
      )
      | no n ↦ inl (omega arith, ground (arith, r.counted))
    ]
