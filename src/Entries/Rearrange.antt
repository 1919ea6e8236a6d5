-- ===== src/Entries/Rearrange.antt =====
-- Databases with the same entries in another order.
use cip_pir.Base.{ℕ, ◌+◌, ◌*◌, ◌≤◌, ◌<◌, ◌≡◌, ◌^◌, ◌⊎◌, arith, refl, ap, ◌∙◌}
use cip_pir.Base.Memory.{Buffer, advance}
use cip_pir.Config.{Config}
use cip_pir.Entries.{db_swap}
use cip_pir.Entries.Number.{number, number-ext}
use cip_pir.Entries.Swap.{swapped, db_swap-swapped}

-- The number of entry `i`: entries are ordered by it.
abbrev pub key : Config → Buffer → ℕ → ℕ
key c db i = number c.entry_size (advance db (i * c.entry_size))

-- `db'` has the entries of `db`, of which those from `lo` up to and without `hi` may have changed
-- places: entry `i` stood at `from i`.
pub record Rearranges (c : Config) (lo hi : ℕ) (db db' : Buffer) : Type 0 where
  pub from : ℕ → ℕ
  pub back : ℕ → ℕ
  pub from_back : (i : ℕ) → from (back i) ≡ i
  pub back_from : (i : ℕ) → back (from i) ≡ i
  pub outside : (i : ℕ) → (i < lo) ⊎ (hi ≤ i) → from i ≡ i
  pub inside : (i : ℕ) → lo ≤ i → i < hi → (lo ≤ from i) × (from i < hi)
  pub moved :
      (i j : ℕ) → j < c.entry_size → db' (i * c.entry_size + j) ≡ db (from i * c.entry_size + j)

pub Rearranges-refl : (c : Config) (lo hi : ℕ) (db : Buffer) → Rearranges c lo hi db db
Rearranges-refl c lo hi db = record {
  from = λ i. i;
  back = λ i. i;
  from_back = λ i. refl;
  back_from = λ i. refl;
  outside = λ i h. refl;
  inside = λ i p q. (p, q);
  moved = λ i j h. refl;
}

pub Rearranges-trans :
    {c : Config} {lo hi : ℕ} {x y z : Buffer}
    → Rearranges c lo hi x y
    → Rearranges c lo hi y z
    → Rearranges c lo hi x z
Rearranges-trans f g = record {
  from = λ i. f.from (g.from i);
  back = λ i. g.back (f.back i);
  from_back = λ i. ap f.from (g.from_back (f.back i)) ∙ f.from_back i;
  back_from = λ i. ap g.back (f.back_from (g.from i)) ∙ g.back_from i;
  outside = λ i h. ap f.from (g.outside i h) ∙ f.outside i h;
  inside = λ i p q. let (a, b) = g.inside i p q in f.inside (g.from i) a b;
  moved = λ i j h. g.moved i j h ∙ f.moved (g.from i) j h;
}

-- A window may be named wider.
pub Rearranges-widen :
    {c : Config} (lo hi lo' hi' : ℕ) {x y : Buffer}
    → lo' ≤ lo
    → hi ≤ hi'
    → Rearranges c lo hi x y
    → Rearranges c lo' hi' x y
Rearranges-widen lo hi lo' hi' p q f = record {
  from = f.from;
  back = f.back;
  from_back = f.from_back;
  back_from = f.back_from;
  outside = λ i h. f.outside i (ground arith);
  inside = λ i a b. ground (arith, f.outside i, f.inside i);
  moved = f.moved;
}

swapped_twice : (l r i : ℕ) → swapped l r (swapped l r i) ≡ i
swapped_twice l r i = ground arith

pub Rearranges-swap :
    (c : Config) (N : ℕ)
    → N * c.entry_size < 2 ^ 32
    → (lo hi l r : ℕ) (db : Buffer) → lo ≤ l
    → lo ≤ r
    → l < hi
    → r < hi
    → hi ≤ N
    → Rearranges c lo hi db (db_swap c db l r)
Rearranges-swap c N small lo hi l r db a b p q h = record {
  from = swapped l r;
  back = swapped l r;
  from_back = swapped_twice l r;
  back_from = swapped_twice l r;
  outside = λ i o. ground arith;
  inside = λ i s t. ground arith;
  moved = λ i j k. db_swap-swapped c N small db l r i j (omega arith) (omega arith) k;
}

pub key-moved :
    {c : Config} {lo hi : ℕ} {db db' : Buffer} (f : Rearranges c lo hi db db') (i : ℕ)
    → key c db' i ≡ key c db (f.from i)
key-moved {c} f i = number-ext c.entry_size _ _ (f.moved i)
