-- ===== src/Entries/Partition.antt =====
-- The loop of `quicksort`: entries that are not above the pivot go to the front.
use cip_pir.Base.{
  ℕ, zero, suc, ◌+◌, ◌-◌, ◌*◌, ◌≤◌, ◌<◌, ◌≡◌, ◌^◌, inl, inr, arith, refl, ap, ap₂, sym, ◌∙◌,
  if◌then◌else◌, ltb, false, Bool-cases, ltb→lt, ℕ_discrete, Bool,
}
use Prim.Native.Nat.{compare}
use mathlib.Core.Path.{subst}
use cip_pir.Base.Memory.{Buffer, advance, IsBytes}
use cip_pir.Config.{Config}
use cip_pir.Entries.{db_swap, partition_from, compare_db_entries, is_greater}
use cip_pir.Entries.Number.{number, number-ext, memcmp-number, is_greater-compare}
use cip_pir.Entries.Swap.{
  swapped, swapped_first, swapped_second, swapped_neither, db_swap-swapped, db_swap-IsBytes,
  offset-small,
}
use cip_pir.Entries.Rearrange.{Rearranges, Rearranges-trans, Rearranges-swap, key}

not_ltb→le : (a b : ℕ) → ltb a b ≡ false → b ≤ a
not_ltb→le a b h = ground arith

module _ (c : Config) (N : ℕ) (small : N * c.entry_size < 2 ^ 32) where
  -- `compareDBEntries` compares the numbers of two entries.
  pub compare_db_entries-key :
      (db : Buffer) (l r : ℕ)
      → IsBytes db
      → l < N
      → r < N
      → is_greater (compare_db_entries c db l r) ≡ ltb (key c db r) (key c db l)
  unfolding compare_db_entries
  compare_db_entries-key db l r bytes p q =
      ap is_greater (
        memcmp-number c.entry_size _ _ (λ o. bytes _) (λ o. bytes _)
        ∙ ap₂
            (λ a b.
              compare (number c.entry_size (advance db a)) (number c.entry_size (advance db b)))
            (offset-small c N small l p) (offset-small c N small r q))
      ∙ is_greater-compare (key c db l) (key c db r)

  module _ (l pivot value : ℕ) (db0 : Buffer) (fits : pivot < N) where
    -- The loop before round `i`: the entries from `l` up to `cnt` are not above the pivot, those
    -- from there up to `i` are, and after the last round the pivot stands before `cnt`.
    pub record IsParted (i cnt : ℕ) (db : Buffer) : Type 0 where
      pub after_start : l ≤ cnt
      pub before_round : cnt ≤ i
      pub entries : Rearranges c l (suc pivot) db0 db
      pub bytes : IsBytes db
      pub low : (k : ℕ) → l ≤ k → k < cnt → key c db k ≤ value
      pub high : (k : ℕ) → cnt ≤ k → k < i → value < key c db k
      pub pivot_stays : i ≤ pivot → key c db pivot ≡ value
      pub placed : pivot < i → (l < cnt) × (key c db (cnt - 1) ≡ value)

    module _ (i cnt : ℕ) (db : Buffer) (p : IsParted i cnt db) (l-le : l ≤ i)
        (round : i ≤ pivot) where
      last : (t : ℕ) → t ≤ pivot → pivot < t + 1 → t ≡ pivot
      last t a b = omega arith

      keep-IsParted : value < key c db i → IsParted (i + 1) cnt db
      keep-IsParted h = record {
        after_start = p.after_start;
        before_round = omega (arith, p.before_round);
        entries = p.entries;
        bytes = p.bytes;
        low = p.low;
        high = λ k a b. elim (ℕ_discrete i k) [
          | yes e ↦ subst (λ t. value < key c db t) e h
          | no n ↦ p.high k a (omega (arith, n))
        ];
        pivot_stays = λ a. p.pivot_stays (omega arith);
        placed =
            λ a. absurd (omega (arith, h, ap (key c db) (last i round a), p.pivot_stays round));
      }

      swap_entries : Rearranges c l (suc pivot) db (db_swap c db cnt i)
      swap_entries =
          Rearranges-swap c N small l (suc pivot) cnt i db p.after_start l-le
            (omega (arith, p.before_round)) (omega arith) (omega arith)

      swap-key : (k : ℕ) → key c (db_swap c db cnt i) k ≡ key c db (swapped cnt i k)
      swap-key k = number-ext c.entry_size _ _ (λ j h.
          db_swap-swapped c N small db cnt i k j (omega (arith, p.before_round)) (omega arith) h)

      move-IsParted : key c db i ≤ value → IsParted (i + 1) (cnt + 1) (db_swap c db cnt i)
      move-IsParted h = record {
        after_start = omega (arith, p.after_start);
        before_round = omega (arith, p.before_round);
        entries = Rearranges-trans p.entries swap_entries;
        bytes = db_swap-IsBytes c N small db cnt i p.bytes;
        low = λ k a b. elim (ℕ_discrete cnt k) [
          | yes e ↦ omega (arith, swap-key k, ap (key c db) (swapped_first cnt i k (sym e)), h)
          | no n ↦ omega (
            arith,
            swap-key k,
            ap (key c db)
                (swapped_neither cnt i k (λ z. n (sym z)) (omega (arith, p.before_round))),
            p.low k a (omega (arith, n)),
          )
        ];
        high = λ k a b. elim (ℕ_discrete i k) [
          | yes e ↦ omega (
            arith,
            swap-key k,
            ap (key c db) (swapped_second cnt i k (omega arith) (sym e)),
            p.high cnt (omega arith) (omega arith),
          )
          | no n ↦ omega (
            arith,
            swap-key k,
            ap (key c db) (swapped_neither cnt i k (omega arith) (λ z. n (sym z))),
            p.high k (omega arith) (omega (arith, n)),
          )
        ];
        pivot_stays = λ a.
            swap-key pivot
            ∙ ap (key c db)
                (sym (swapped_neither cnt i pivot (omega (arith, p.before_round)) (omega arith)))
            ∙ p.pivot_stays round;
        placed = λ a. (
          omega (arith, p.after_start),
          ap (key c (db_swap c db cnt i)) (omega arith)
              ∙ swap-key cnt
              ∙ ap (key c db) (sym (swapped_first cnt i cnt refl) ∙ last i round a)
              ∙ p.pivot_stays round,
        );
      }

    pub partition_from-IsParted :
        (left i cnt : ℕ) (db : Buffer)
        → i + left ≡ suc pivot
        → l ≤ i
        → IsParted i cnt db
        → (λ (r : Buffer × ℕ). IsParted (suc pivot) r.1 r.0) (partition_from c left pivot i cnt db)
    unfolding partition_from
    partition_from-IsParted zero i cnt db e a p = subst (λ t. IsParted t cnt db) (omega arith) p
    partition_from-IsParted (suc left) i cnt db e a p = elim (Bool-cases above) [
      | inl h ↦ subst ends (sym h) (
          partition_from-IsParted left (i + 1) cnt db (omega arith) (omega arith) (
            keep-IsParted i cnt db p a (omega arith)
              (omega (arith, p.pivot_stays (omega arith), ltb→lt _ _ (sym (same p.bytes) ∙ h)))))
      | inr h ↦ subst ends (sym h) (
          partition_from-IsParted left (i + 1) (cnt + 1) (db_swap c db cnt i) (omega arith)
            (omega arith)
            (move-IsParted i cnt db p a (omega arith) (
              omega (arith, p.pivot_stays (omega arith), not_ltb→le _ _ (sym (same p.bytes) ∙ h)))))
    ]
      where
        above : Bool
        above = is_greater (compare_db_entries c db i pivot)

        same : IsBytes db → above ≡ ltb (key c db pivot) (key c db i)
        same bytes = compare_db_entries-key db i pivot bytes (omega arith) fits

        ends : Bool → Type 0
        ends b =
            (λ (r : Buffer × ℕ). IsParted (suc pivot) r.1 r.0)
              (partition_from c left pivot (i + 1) (if b then cnt else cnt + 1)
                (if b then db else db_swap c db cnt i))
