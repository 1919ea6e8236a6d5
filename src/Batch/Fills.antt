-- ===== src/Batch/Fills.antt =====
-- What the batch leaves in the pool.
use cip_pir.Base.{
  ℕ, zero, suc, ◌+◌, ◌-◌, ◌*◌, ◌^◌, ◌≤◌, ◌<◌, ◌≡◌, inl, arith, refl, sym, ap, ◌∙◌, List, u32, at,
}
use mathlib.Core.Path.{subst}
use native.Mathlib.Nat.{mod-eq_of_lt}
use cip_pir.Base.Memory.{Buffer, copy-inside, copy-outside, zeros}
use cip_pir.Base.Slots.{suc-times, times_le}
use cip_pir.Config.{Config}
use cip_pir.Kernels.{fastxor}
use cip_pir.Kernels.Groups.{fastxor-ext}
use cip_pir.Server.{Crypto, bytes_to_generate}
use cip_pir.Seeds.{Pool}
use cip_pir.Seeds.Slots.{IsRing, tuple_size, wrapped, wrapped-lt}
use cip_pir.Seeds.Queue.{Queue, Represents, push, tuple_of, store_tuple-Represents}
use cip_pir.Accelerator.{compute}
use cip_pir.Accelerator.Kernel.{IsSmall, some_blocks}
use cip_pir.Accelerator.Compute.{compute-fastxor}
use cip_pir.Batch.{Filled, fill_from, seeds_to_compute, fill_batch, precompute_batch, store_from}
use cip_pir.Batch.Writes.{IsSlot, store_all, both_loops-store_all}

-- A queue behind `left` pushes, of the tuples from number `i` on.
unfoldable pub push_all : (ℕ → Buffer) → ℕ → ℕ → Queue → Queue
push_all tuple zero i q = q
push_all tuple (suc left) i q = push_all tuple left (i + 1) (push (tuple i) q)

module _ (c : Config) (v : IsRing c) where
  store_all-Represents :
      (seeds : ℕ → List ℕ) (block : Buffer) (left i : ℕ) (p : Pool) (q : Queue)
      → q.count + left ≤ c.number_seeds
      → Represents c p q
      → Represents c
          (store_all c v seeds block left i p)
          (push_all (λ t. tuple_of c (at (seeds t)) block) left i q)
  unfolding store_all push_all
  store_all-Represents seeds block zero i p q h r = r
  store_all-Represents seeds block (suc left) i p q h r =
      store_all-Represents seeds block left (i + 1) _ _ (omega arith)
        (store_tuple-Represents c v p q r (at (seeds i)) block (omega arith))

abbrev pub all_before : Buffer → Pool → Filled
all_before fresh p = record {
  query = fresh;
  memory = p.memory;
  current_pre_seed = p.current_pre_seed;
}

module _ (c : Config) (k : Crypto) (n : ℕ) (seeds : ℕ → List ℕ) where
  -- The rounds from `i` on leave the queries of the rounds before alone.
  fill_from-before :
      (left i : ℕ) (f : Filled) (g : ℕ)
      → (i + left) * n < 2 ^ 32
      → g < i * n
      → (fill_from c k n seeds left i f).query g ≡ f.query g
  unfolding fill_from
  fill_from-before zero i f g h l = refl
  fill_from-before (suc left) i f g h l =
      let fits : i * n < 2 ^ 32 = omega (arith, h) in
      let place : u32 (i * n) ≡ i * n = mod-eq_of_lt fits in
      fill_from-before left (i + 1) _ g (omega (arith, h)) (omega (arith, suc-times i n))
      ∙ copy-outside f.query (k.gen_rnd_from_seed (seeds i) n) (u32 (i * n)) n g
          (inl (omega (arith, place)))

  -- The first `n` bytes are the query of the first seed.
  fill_from-first :
      (left : ℕ) (f : Filled) (g : ℕ)
      → 1 ≤ left
      → left * n < 2 ^ 32
      → g < n
      → (fill_from c k n seeds left 0 f).query g ≡ k.gen_rnd_from_seed (seeds 0) n g
  unfolding fill_from
  fill_from-first zero f g some h l = absurd (omega arith)
  fill_from-first (suc left) f g some h l =
      fill_from-before left 1 _ g (omega (arith, h)) (omega arith)
      ∙ copy-inside f.query (k.gen_rnd_from_seed (seeds 0) n) (u32 (0 * n)) n g g (omega arith) l

module _ (c : Config) (v : IsRing c) where
  -- If there is room for `count` tuples, they join the queue; all hold the same block.
  pub fill_batch-Represents :
      (k : Crypto) (db : Buffer) (id : ℕ) (seeds : ℕ → List ℕ) (fresh fresh_data : Buffer)
      (count : ℕ) (p : Pool) (q : Queue)
      → Represents c p q
      → q.count + count ≤ c.number_seeds
      → let n = bytes_to_generate c id in
        let query = (fill_from c k n seeds count 0 (all_before fresh p)).query in
        Represents c (fill_batch c k db id seeds fresh fresh_data count p) (
          push_all
            (λ t. tuple_of c (at (seeds t)) (compute c fresh_data db zeros n count query))
            count
            0
            q)
  unfolding fill_batch
  fill_batch-Represents k db id seeds fresh fresh_data count p q r room =
      let n = bytes_to_generate c id in
      let query = (fill_from c k n seeds count 0 (all_before fresh p)).query in
      let block = compute c fresh_data db zeros n count query in
      let tuple = λ (t : ℕ). tuple_of c (at (seeds t)) block in
      let slot : IsSlot c v p.current_pre_seed = (
        wrapped c.number_seeds (r.head + q.count),
        wrapped-lt c.number_seeds r.head r.head_in q.count r.bounded,
        r.write_at,
      ) in
      subst (λ z. Represents c z (push_all tuple count 0 q))
        (sym (both_loops-store_all c v k n seeds block count 0 fresh p slot))
        (store_all-Represents c v seeds block count 0 p q room r)

  pub seeds_to_compute_lem :
      (p : Pool) (q : Queue) → Represents c p q → seeds_to_compute c p ≡ c.number_seeds - q.count
  seeds_to_compute_lem p q r = omega (
    arith,
    r.counted,
    r.bounded,
    v.small_ring,
    times_le c.number_seeds (tuple_size c) v.some_byte,
  )

module _ (c : Config) (v : IsRing c) (small : IsSmall c) where
  -- In a pool that holds a queue with free slots, the batch of `precompute` fills all of them, in
  -- the order of the seeds. Behind every seed stands the same block, the one that the query of the
  -- first seed selects in the groups from the start of the server's database. This is for small
  -- blocks, a query of a byte or more, and queries of less than 2^32 bytes in all.
  pub precompute_batch-Represents :
      (k : Crypto) (db : Buffer) (id : ℕ) (seeds : ℕ → List ℕ) (fresh fresh_data : Buffer)
      (p : Pool) (q : Queue)
      → Represents c p q
      → q.count < c.number_seeds
      → 1 ≤ bytes_to_generate c id
      → (c.number_seeds - q.count) * bytes_to_generate c id < 2 ^ 32
      → (block : Buffer) × ((j : ℕ)
          → j < c.block_size
          → let n = bytes_to_generate c id in
            block j ≡ fastxor c zeros db (k.gen_rnd_from_seed (seeds 0) n) n j)
        × Represents c
            (precompute_batch c k db id seeds fresh fresh_data p)
            (push_all (λ t. tuple_of c (at (seeds t)) block) (c.number_seeds - q.count) 0 q)
  unfolding precompute_batch
  precompute_batch-Represents k db id seeds fresh fresh_data p q r free some fits =
      (block, first_block, all_stored)
    where
      n : ℕ
      n = bytes_to_generate c id

      count : ℕ
      count = seeds_to_compute c p

      count_lem : seeds_to_compute c p ≡ c.number_seeds - q.count
      count_lem = seeds_to_compute_lem c v p q r

      filled : Filled
      filled = fill_from c k n seeds count 0 (all_before fresh p)

      block : Buffer
      block = compute c fresh_data db zeros n count filled.query

      first_block :
          (j : ℕ)
          → j < c.block_size
          → block j ≡ fastxor c zeros db (k.gen_rnd_from_seed (seeds 0) n) n j
      first_block j h =
          ap block (omega arith)
          ∙ compute-fastxor c small db fresh_data zeros n count filled.query 0 0 j some
              (omega (arith, some_blocks c small)) (omega (arith, count_lem)) h
          ∙ fastxor-ext c zeros db _ (k.gen_rnd_from_seed (seeds 0) n) n j h (λ g l.
            ap filled.query (omega arith)
            ∙ fill_from-first c k n seeds count _ g (omega (arith, count_lem))
                (subst (λ m. m * n < 2 ^ 32) (sym count_lem) fits) l)

      all_stored :
          Represents c
            (precompute_batch c k db id seeds fresh fresh_data p)
            (push_all (λ t. tuple_of c (at (seeds t)) block) (c.number_seeds - q.count) 0 q)
      all_stored =
          subst
            (λ m.
              Represents c (precompute_batch c k db id seeds fresh fresh_data p)
                (push_all (λ t. tuple_of c (at (seeds t)) block) m 0 q))
            count_lem
            (fill_batch-Represents c v k db id seeds fresh fresh_data count p q r
              (omega (arith, count_lem)))

pub count-push_all :
    (tuple : ℕ → Buffer) (left i : ℕ) (q : Queue) → (push_all tuple left i q).count ≡ q.count + left
unfolding push_all
count-push_all tuple zero i q = omega arith
count-push_all tuple (suc left) i q =
    count-push_all tuple left (i + 1) (push (tuple i) q) ∙ omega arith

pub fill_batch-one :
    (c : Config) (k : Crypto) (db : Buffer) (id : ℕ) (seeds : ℕ → List ℕ)
    (fresh fresh_data : Buffer) (p : Pool)
    → (fill_batch c k db id seeds fresh fresh_data 1 p).available ≡ u32 (p.available + 1)
unfolding fill_batch store_from
fill_batch-one c k db id seeds fresh fresh_data p = refl
