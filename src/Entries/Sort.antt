-- ===== src/Entries/Sort.antt =====
-- `quicksort` sorts the entries and keeps them all.
use mathlib.Core.Path.{subst}
use cip_pir.Base.{
  ℕ, zero, suc, ◌+◌, ◌-◌, ◌*◌, ◌≤◌, ◌<◌, ◌≡◌, ◌^◌, u32, inl, inr, arith, refl, ap, sym, ◌∙◌, dec_lt,
  dec_le,
}
use cip_pir.Base.Memory.{Buffer, IsBytes}
use cip_pir.Config.{Config}
use cip_pir.Entries.{partition_from, quicksort_fuel, quicksort}
use cip_pir.Entries.Rearrange.{
  Rearranges, Rearranges-refl, Rearranges-trans, Rearranges-widen, key, key-moved,
}
use cip_pir.Entries.Partition.{IsParted, partition_from-IsParted}

-- The entries from `lo` up to and without `hi` ascend.
abbrev pub IsAscending : Config → ℕ → ℕ → Buffer → Type 0
IsAscending c lo hi db = (a b : ℕ) → lo ≤ a → a ≤ b → b < hi → key c db a ≤ key c db b

-- `db'` is the database `db` with the entries of a window sorted, and all others in their places.
pub record IsSorting (c : Config) (lo hi : ℕ) (db db' : Buffer) : Type 0 where
  pub entries : Rearranges c lo hi db db'
  pub bytes : IsBytes db'
  pub ascending : IsAscending c lo hi db'

module _ (c : Config) (N : ℕ) (small : N * c.entry_size < 2 ^ 32) (l pivot value : ℕ) (db0 : Buffer)
    (fits : pivot < N) (cnt : ℕ) (parted left right : Buffer)
    (p : IsParted c N small l pivot value db0 fits (suc pivot) cnt parted)
    (s : IsSorting c l (cnt - 1) parted left) (t : IsSorting c cnt (suc pivot) left right) where
  low_left : (k : ℕ) → l ≤ k → k < cnt → key c left k ≤ value
  low_left k a b = elim (dec_lt k (cnt - 1)) [
    | yes h ↦
        let (x, y) = s.entries.inside k a h in
        omega (arith, key-moved s.entries k, p.low (s.entries.from k) x (omega arith))
    | no h ↦ omega (
      arith,
      key-moved s.entries k,
      ap (key c parted) (s.entries.outside k (inr (omega arith))),
      p.low k a b,
    )
  ]

  pivot_left : key c left (cnt - 1) ≡ value
  pivot_left =
      key-moved s.entries (cnt - 1)
      ∙ ap (key c parted) (s.entries.outside (cnt - 1) (inr (omega arith)))
      ∙ (p.placed (omega arith)).1

  front_stays : (k : ℕ) → k < cnt → key c right k ≡ key c left k
  front_stays k h = key-moved t.entries k ∙ ap (key c left) (t.entries.outside k (inl h))

  high_right : (k : ℕ) → cnt ≤ k → k < suc pivot → value < key c right k
  high_right k a b =
      let (x, y) = t.entries.inside k a b in
      let k' = t.entries.from k in
      omega (
        arith,
        key-moved t.entries k,
        key-moved s.entries k',
        ap (key c parted) (s.entries.outside k' (inr (omega arith))),
        p.high k' x y,
      )

  both-IsAscending : IsAscending c l (suc pivot) right
  both-IsAscending a b x y z = elim (dec_lt b cnt) [
    | no h ↦ elim (dec_lt a cnt) [
      | no g ↦ t.ascending a b (omega arith) y z
      | yes g ↦ omega (arith, front_stays a g, low_left a x g, high_right b (omega arith) z)
    ]
    | yes h ↦ elim (dec_lt b (cnt - 1)) [
      | yes g ↦ omega (arith, front_stays a (omega arith), front_stays b h, s.ascending a b x y g)
      | no g ↦ omega (
        arith,
        front_stays a (omega arith),
        front_stays b h,
        low_left a x (omega arith),
        ap (key c left) (top b h g),
        pivot_left,
      )
    ]
  ]
    where
      top : (k : ℕ) → k < cnt → ¬ (k < cnt - 1) → k ≡ cnt - 1
      top k h g = omega arith

  both-IsSorting : IsSorting c l (suc pivot) db0 right
  both-IsSorting = record {
    entries = Rearranges-trans p.entries (
        Rearranges-trans
          (Rearranges-widen l (cnt - 1) l (suc pivot) (omega arith) (omega (arith, p.before_round))
            s.entries)
          (Rearranges-widen cnt (suc pivot) l (suc pivot) p.after_start (omega arith) t.entries));
    bytes = t.bytes;
    ascending = both-IsAscending;
  }

-- What `quicksort` does for the `r` that it is given.
abbrev int32 : Config → Buffer → ℕ → ℕ → Buffer
int32 c db l r = elim (dec_lt r (2 ^ 31)) [
  | yes _ ↦ quicksort_fuel c (r + 1 - l) db l (r + 1)
  | no _ ↦ db
]

int32_small :
    (c : Config) (db : Buffer) (l n : ℕ)
    → n < 2 ^ 31
    → int32 c db l n ≡ quicksort_fuel c (suc n - l) db l (suc n)
int32_small c db l n h =
    elim (dec_lt n (2 ^ 31))
      as (λ d.
        elim d as (λ x. Buffer) [ yes x ↦ quicksort_fuel c (n + 1 - l) db l (n + 1) | no x ↦ db ]
        ≡ quicksort_fuel c (suc n - l) db l (suc n)) [
          | yes x ↦ ap (λ t. quicksort_fuel c (t - l) db l t) (omega arith)
          | no x ↦ absurd (x h)
        ]

module _ (c : Config) (N : ℕ) (small : N * c.entry_size < 2 ^ 32) where
  short-IsSorting : (db : Buffer) (l end : ℕ) → end ≤ l + 1 → IsBytes db → IsSorting c l end db db
  short-IsSorting db l end e h = record {
    entries = Rearranges-refl c l end db;
    bytes = h;
    ascending = λ a b x y z. omega (arith, ap (key c db) (alone a b x y z));
  }
    where
      alone : (a b : ℕ) → l ≤ a → a ≤ b → b < end → a ≡ b
      alone a b x y z = omega arith

  start-IsParted :
      (db : Buffer) (l pivot : ℕ) (fits : pivot < N)
      → l < suc pivot
      → IsBytes db
      → IsParted c N small l pivot (key c db pivot) db fits l l db
  start-IsParted db l pivot fits e h = record {
    after_start = omega arith;
    before_round = omega arith;
    entries = Rearranges-refl c l (suc pivot) db;
    bytes = h;
    low = λ k a b. absurd (omega arith);
    high = λ k a b. absurd (omega arith);
    pivot_stays = λ a. refl;
    placed = λ a. absurd (omega arith);
  }

  quicksort_fuel-IsSorting :
      (fuel : ℕ) (db : Buffer) (l end : ℕ)
      → end ≤ l + fuel
      → end ≤ N
      → IsBytes db
      → IsSorting c l end db (quicksort_fuel c fuel db l end)
  unfolding quicksort_fuel
  quicksort_fuel-IsSorting zero db l end e n h = short-IsSorting db l end (omega arith) h
  quicksort_fuel-IsSorting (suc fuel) db l end e n h =
      elim (dec_le end (l + 1))
        as (λ d. IsSorting c l end db (elim d as (λ x. Buffer) [
          | yes x ↦ db
          | no x ↦
              quicksort_fuel c fuel
                (quicksort_fuel c fuel (partition_from c (end - l) (end - 1) l l db).0 l
                  ((partition_from c (end - l) (end - 1) l l db).1 - 1))
                (partition_from c (end - l) (end - 1) l l db).1 end
        ])) [
          | yes x ↦ short-IsSorting db l end x h
          | no x ↦
              let fits : end - 1 < N = omega arith in
              let value = key c db (end - 1) in
              let r = partition_from c (end - l) (end - 1) l l db in
              let p =
                partition_from-IsParted c N small l (end - 1) value db fits (end - l) l l db
                  (omega arith) (omega arith)
                  (start-IsParted db l (end - 1) fits (omega arith) h) in
              let (above_l, placed) = p.placed (omega arith) in
              let left = quicksort_fuel c fuel r.0 l (r.1 - 1) in
              let s =
                quicksort_fuel-IsSorting fuel r.0 l (r.1 - 1) (omega (arith, p.before_round))
                  (omega (arith, p.before_round)) p.bytes in
              let t =
                quicksort_fuel-IsSorting fuel left r.1 end (omega (arith, above_l)) n s.bytes in
              let whole : suc (end - 1) ≡ end = omega arith in
              subst (λ z. IsSorting c l z db (quicksort_fuel c fuel left r.1 end)) whole
                (both-IsSorting c N small l (end - 1) value db fits r.1 r.0 left
                  (quicksort_fuel c fuel left r.1 end) p s
                  (subst (λ z. IsSorting c r.1 z left (quicksort_fuel c fuel left r.1 end))
                    (sym whole) t))
        ]

  quicksort-fuel :
      (db : Buffer) (l end : ℕ)
      → end < 2 ^ 31
      → quicksort c db l end ≡ quicksort_fuel c (end - l) db l end
  unfolding quicksort quicksort_fuel dec_lt
  quicksort-fuel db l zero h =
      let none_left : 0 ≡ 0 - l = omega arith in ap (λ f. quicksort_fuel c f db l 0) none_left
  quicksort-fuel db l (suc n) h =
      let exact : u32 (suc n + 2 ^ 32 - 1) ≡ n = omega arith in
      ap (int32 c db l) exact ∙ int32_small c db l n (omega arith)

  -- `quicksort` of the entries from `l` up to and without `end`, for a database of bytes, offsets
  -- that fit `uint32_t` and an `end` that fits `int32_t`, gives the same entries, those of the
  -- window in ascending order and all others in their places.
  pub quicksort-IsSorting :
      (db : Buffer) (l end : ℕ)
      → end ≤ N
      → end < 2 ^ 31
      → IsBytes db
      → IsSorting c l end db (quicksort c db l end)
  quicksort-IsSorting db l end n fits h =
      subst (IsSorting c l end db) (sym (quicksort-fuel db l end fits))
        (quicksort_fuel-IsSorting (end - l) db l end (omega arith) n h)
