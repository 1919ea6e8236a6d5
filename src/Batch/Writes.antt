-- ===== src/Batch/Writes.antt =====
-- The two loops of the batch write what one loop that stores seed and block at a time would write.
use cip_pir.Base.{
  ℕ, zero, suc, ◌+◌, ◌*◌, ◌≤◌, ◌<◌, ◌≡◌, ◌⊎◌, inl, inr, arith, refl, sym, ap, ◌∙◌, fun_ext, List,
  ℕ_discrete, dec_lt, u32, if◌then◌else◌, ◌==◌, at,
}
use mathlib.Core.Path.{subst}
use cip_pir.Base.Memory.{Buffer, copy}
use cip_pir.Base.Slots.{slot_end}
use cip_pir.Config.{Config, seed_bytes}
use cip_pir.Server.{Crypto}
use cip_pir.Seeds.{Pool, seed_size, next_slot, store_tuple}
use cip_pir.Seeds.Slots.{IsRing, tuple_size, seed_size_lem, next_slot-times, wrapped}
use cip_pir.Batch.{Filled, fill_from, store_from, next_pre_seed}

copy-copy :
    (m a b : Buffer) (k n l o : ℕ)
    → (k + n ≤ l) ⊎ (l + o ≤ k)
    → copy (copy m k a n) l b o ≡ copy (copy m l b o) k a n
copy-copy m a b k n l o (inl h) = fun_ext λ i. ground arith
copy-copy m a b k n l o (inr h) = fun_ext λ i. ground arith

module _ (c : Config) (v : IsRing c) where
  -- A place at which a slot starts.
  abbrev pub IsSlot : ℕ → Type 0
  IsSlot place = (a : ℕ) × (a < c.number_seeds) × (place ≡ a * tuple_size c)

  next_pre_seed_lem : (place : ℕ) → next_pre_seed c place ≡ next_slot c place
  next_pre_seed_lem place =
      ap (λ s. if place + s == u32 (c.number_seeds * seed_size c) then 0 else place + s)
        (seed_size_lem c v)

  next_slot-IsSlot : (place : ℕ) → IsSlot place → IsSlot (next_slot c place)
  next_slot-IsSlot place (a, h, e) = (
    wrapped c.number_seeds (suc a),
    ground (arith, v.some_slot),
    ap (next_slot c) e ∙ next_slot-times c v a h,
  )

  -- The seed of a slot and the block of a slot are apart.
  seed_block_apart :
      (p q : ℕ)
      → IsSlot p
      → IsSlot q
      → (p + seed_bytes c ≤ q + seed_bytes c) ⊎ (q + seed_bytes c + c.block_size ≤ p)
  seed_block_apart p q (a, ha, ea) (b, hb, eb) = elim (dec_lt b a) [
    | yes h ↦ inr (omega (arith, slot_end b a (tuple_size c) h))
    | no h ↦ inl (elim (ℕ_discrete a b) [
      | yes e ↦ omega (arith, ap (λ t. t * tuple_size c) e)
      | no n ↦ omega (arith, slot_end a b (tuple_size c) (omega arith))
    ])
  ]

  module _ (k : Crypto) (n : ℕ) (seeds : ℕ → List ℕ) where
    abbrev next_filled : Filled → ℕ → Filled
    next_filled f i = record {
      query = copy f.query (u32 (i * n)) (k.gen_rnd_from_seed (seeds i) n) n;
      memory = copy f.memory f.current_pre_seed (at (seeds i)) (seed_bytes c);
      current_pre_seed = next_pre_seed c f.current_pre_seed;
    }

    next_filled-IsSlot :
        (f : Filled) (i : ℕ) → IsSlot f.current_pre_seed → IsSlot (next_filled f i).current_pre_seed
    next_filled-IsSlot f i s =
        subst IsSlot (sym (next_pre_seed_lem f.current_pre_seed))
          (next_slot-IsSlot f.current_pre_seed s)

    -- A block that is written before the seeds of other places could be written after them.
    fill_from-block :
        (left i : ℕ) (f : Filled) (block : Buffer) (q : ℕ)
        → IsSlot f.current_pre_seed
        → IsSlot q
        → fill_from c k n seeds left i
            (record f { memory = copy f.memory (q + seed_bytes c) block c.block_size })
          ≡ (let r = fill_from c k n seeds left i f in
              record r { memory = copy r.memory (q + seed_bytes c) block c.block_size })
    unfolding fill_from
    fill_from-block zero i f block q s t = refl
    fill_from-block (suc left) i f block q s t =
        ap (λ m. fill_from c k n seeds left (i + 1) (record (next_filled f i) { memory = m }))
          (sym (
            copy-copy f.memory (at (seeds i)) block f.current_pre_seed (seed_bytes c)
              (q + seed_bytes c) c.block_size (seed_block_apart f.current_pre_seed q s t)))
        ∙ fill_from-block left (i + 1) (next_filled f i) block q (next_filled-IsSlot f i s) t

  -- The tuples that a loop like that of the CPU would store, from seed `i` on.
  unfoldable pub store_all : (ℕ → List ℕ) → Buffer → ℕ → ℕ → Pool → Pool
  store_all seeds block zero i p = p
  store_all seeds block (suc left) i p =
      store_all seeds block left (i + 1) (store_tuple c (at (seeds i)) block p)

  module _ (k : Crypto) (n : ℕ) (seeds : ℕ → List ℕ) (block : Buffer) where
    abbrev filled_at : Buffer → Pool → Filled
    filled_at query p = record {
      query = query;
      memory = p.memory;
      current_pre_seed = p.current_pre_seed;
    }

    -- The pool behind both loops.
    abbrev pub both_loops : ℕ → ℕ → Buffer → Pool → Pool
    both_loops left i query p =
        let filled = fill_from c k n seeds left i (filled_at query p) in
        let stored =
          store_from c block left p.current_pre_seed
            (record { memory = filled.memory; available = p.available }) in
        record {
          memory = stored.memory;
          current_seed = p.current_seed;
          current_pre_seed = filled.current_pre_seed;
          available = stored.available;
        }

    pub both_loops-store_all :
        (left i : ℕ) (query : Buffer) (p : Pool)
        → IsSlot p.current_pre_seed
        → both_loops left i query p ≡ store_all seeds block left i p
    unfolding fill_from store_from store_all store_tuple
    both_loops-store_all zero i query p s = refl
    both_loops-store_all (suc left) i query p s =
        ap build (sym (fill_from-block k n seeds left (i + 1) f block p.current_pre_seed moved s))
        ∙ ap
            (λ q. build (
              fill_from c k n seeds left (i + 1)
                (record f { memory = stored.memory; current_pre_seed = q })))
            (next_pre_seed_lem p.current_pre_seed)
        ∙ both_loops-store_all left (i + 1) f.query stored (next_slot-IsSlot p.current_pre_seed s)
      where
        f : Filled
        f = next_filled k n seeds (filled_at query p) i

        moved : IsSlot f.current_pre_seed
        moved = next_filled-IsSlot k n seeds (filled_at query p) i s

        stored : Pool
        stored = store_tuple c (at (seeds i)) block p

        build : Filled → Pool
        build g =
            let later =
              store_from c block left (next_slot c p.current_pre_seed)
                (record { memory = g.memory; available = u32 (p.available + 1) }) in
            record {
              memory = later.memory;
              current_seed = p.current_seed;
              current_pre_seed = g.current_pre_seed;
              available = later.available;
            }
