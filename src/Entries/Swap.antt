-- ===== src/Entries/Swap.antt =====
-- What `DBswap` does to the entries.
use native.Mathlib.Nat.{mod-eq_of_lt}
use cip_pir.Base.{
  ℕ, zero, suc, ◌+◌, ◌*◌, ◌^◌, ◌≤◌, ◌<◌, ◌≡◌, ◌≢◌, ◌⊎◌, inl, inr, arith, refl, ap, ap₂, ◌∙◌, u32,
  if◌then◌else◌, ◌==◌, ℕ_discrete, dec_lt,
}
use cip_pir.Base.Memory.{Buffer, write, IsBytes}
use cip_pir.Base.Slots.{slot_end, slots_apart}
use cip_pir.Config.{Config}
use cip_pir.Entries.{swap_bytes, db_swap}

-- Two ranges of `n` bytes that do not overlap, or are the same.
abbrev IsApart : ℕ → ℕ → ℕ → Type 0
IsApart n l r = (l + n ≤ r) ⊎ (r + n ≤ l) ⊎ (l ≡ r)

IsApart-suc : (n l r : ℕ) → IsApart (suc n) l r → IsApart n (l + 1) (r + 1)
IsApart-suc n l r h = ground arith

swap_here : (db : Buffer) (l r : ℕ) → write (write db l (db r)) r (db l) l ≡ db r
swap_here db l r = elim (ℕ_discrete l r) [ yes e ↦ ground (arith, ap db e) | no n ↦ ground arith ]

swap_there : (db : Buffer) (l r : ℕ) → write (write db l (db r)) r (db l) r ≡ db l
swap_there db l r = ground arith

swap_other : (db : Buffer) (l r o : ℕ) → o ≢ l → o ≢ r → write (write db l (db r)) r (db l) o ≡ db o
swap_other db l r o n m = ground arith

swap_bytes-other :
    (n l r : ℕ) (db : Buffer) (o : ℕ)
    → (o < l) ⊎ (l + n ≤ o)
    → (o < r) ⊎ (r + n ≤ o)
    → swap_bytes n l r db o ≡ db o
unfolding swap_bytes
swap_bytes-other zero l r db o h k = refl
swap_bytes-other (suc n) l r db o h k =
    swap_bytes-other n (l + 1) (r + 1) _ o (ground arith) (ground arith)
    ∙ swap_other db l r o (ground arith) (ground arith)

swap_bytes-left :
    (n l r : ℕ) (db : Buffer) (j : ℕ)
    → IsApart n l r
    → j < n
    → swap_bytes n l r db (l + j) ≡ db (r + j)
unfolding swap_bytes
swap_bytes-left zero l r db j h p = absurd (omega arith)
swap_bytes-left (suc n) l r db zero h p =
    swap_bytes-other n (l + 1) (r + 1) _ (l + 0) (inl (omega arith)) (ground arith)
    ∙ ap (write (write db l (db r)) r (db l)) (omega arith)
    ∙ swap_here db l r
    ∙ ap db (omega arith)
swap_bytes-left (suc n) l r db (suc j) h p =
    ap (swap_bytes n (l + 1) (r + 1) _) (omega arith)
    ∙ swap_bytes-left n (l + 1) (r + 1) _ j (IsApart-suc n l r h) (omega arith)
    ∙ swap_other db l r (r + 1 + j) (ground arith) (omega arith)
    ∙ ap db (omega arith)

swap_bytes-right :
    (n l r : ℕ) (db : Buffer) (j : ℕ)
    → IsApart n l r
    → j < n
    → swap_bytes n l r db (r + j) ≡ db (l + j)
unfolding swap_bytes
swap_bytes-right zero l r db j h p = absurd (omega arith)
swap_bytes-right (suc n) l r db zero h p =
    swap_bytes-other n (l + 1) (r + 1) _ (r + 0) (ground arith) (inl (omega arith))
    ∙ ap (write (write db l (db r)) r (db l)) (omega arith)
    ∙ swap_there db l r
    ∙ ap db (omega arith)
swap_bytes-right (suc n) l r db (suc j) h p =
    ap (swap_bytes n (l + 1) (r + 1) _) (omega arith)
    ∙ swap_bytes-right n (l + 1) (r + 1) _ j (IsApart-suc n l r h) (omega arith)
    ∙ swap_other db l r (l + 1 + j) (omega arith) (ground arith)
    ∙ ap db (omega arith)

swap_bytes-IsBytes : (n l r : ℕ) (db : Buffer) → IsBytes db → IsBytes (swap_bytes n l r db)
unfolding swap_bytes
swap_bytes-IsBytes zero l r db h = h
swap_bytes-IsBytes (suc n) l r db h =
    swap_bytes-IsBytes n (l + 1) (r + 1) _ (λ o. ground (arith, h o, h l, h r))

-- Which entry of the database stands at `i` after entries `l` and `r` have changed places.
abbrev pub swapped : ℕ → ℕ → ℕ → ℕ
swapped l r i = if i == l then r else if i == r then l else i

pub swapped_first : (l r i : ℕ) → i ≡ l → r ≡ swapped l r i
swapped_first l r i e = ground arith

pub swapped_second : (l r i : ℕ) → i ≢ l → i ≡ r → l ≡ swapped l r i
swapped_second l r i n e = ground arith

pub swapped_neither : (l r i : ℕ) → i ≢ l → i ≢ r → i ≡ swapped l r i
swapped_neither l r i n m = ground arith

module _ (c : Config) (N : ℕ) (small : N * c.entry_size < 2 ^ 32) where
  pub offset-small : (i : ℕ) → i < N → u32 (i * c.entry_size) ≡ i * c.entry_size
  offset-small i h = mod-eq_of_lt (omega (arith, small, slot_end i N c.entry_size h))

  slots-IsApart : (l r : ℕ) → IsApart c.entry_size (l * c.entry_size) (r * c.entry_size)
  slots-IsApart l r = elim (ℕ_discrete l r) [
    | yes e ↦ inr (inr (ap (λ t. t * c.entry_size) e))
    | no n ↦ elim (dec_lt l r) [
      | yes h ↦ inl (slot_end l r c.entry_size h)
      | no k ↦ inr (inl (slot_end r l c.entry_size (omega arith)))
    ]
  ]

  -- For entries below `N`, of which the offsets fit `uint32_t`, `DBswap` lets two entries change
  -- places, and no other.
  pub db_swap-swapped :
      (db : Buffer) (l r i j : ℕ)
      → l < N
      → r < N
      → j < c.entry_size
      → db_swap c db l r (i * c.entry_size + j) ≡ db (swapped l r i * c.entry_size + j)
  unfolding db_swap
  db_swap-swapped db l r i j p q k =
      ap₂ (λ a b. swap_bytes c.entry_size a b db (i * c.entry_size + j)) (offset-small l p)
        (offset-small r q)
      ∙ (elim (ℕ_discrete i l) [
        | yes e ↦
            ap (λ t. S (t * c.entry_size + j)) e
            ∙ swap_bytes-left c.entry_size _ _ db j (slots-IsApart l r) k
            ∙ ap (λ t. db (t * c.entry_size + j)) (swapped_first l r i e)
        | no n ↦ elim (ℕ_discrete i r) [
          | yes e ↦
              ap (λ t. S (t * c.entry_size + j)) e
              ∙ swap_bytes-right c.entry_size _ _ db j (slots-IsApart l r) k
              ∙ ap (λ t. db (t * c.entry_size + j)) (swapped_second l r i n e)
          | no m ↦
              swap_bytes-other c.entry_size (l * c.entry_size) (r * c.entry_size) db
                (i * c.entry_size + j) (slots_apart i l c.entry_size j n k)
                (slots_apart i r c.entry_size j m k)
              ∙ ap (λ t. db (t * c.entry_size + j)) (swapped_neither l r i n m)
        ]
      ])
    where
      S : Buffer
      S = swap_bytes c.entry_size (l * c.entry_size) (r * c.entry_size) db

  pub db_swap-IsBytes : (db : Buffer) (l r : ℕ) → IsBytes db → IsBytes (db_swap c db l r)
  unfolding db_swap
  db_swap-IsBytes db l r h = swap_bytes-IsBytes c.entry_size _ _ db h
