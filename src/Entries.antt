-- ===== src/Entries.antt =====
-- database/createDatabase.cpp: the entries of a database, their order and the sort, the blinding,
-- and the manifest.
pub mod Number
pub mod Prefix
pub mod Swap
pub mod Rearrange
pub mod Partition
pub mod Sort
pub mod Manifest
pub mod Subtract
use Prim.Native.Nat.{compare, Ordering}
use cip_pir.Base.{ℕ, zero, suc, ◌+◌, ◌-◌, ◌*◌, ◌/◌, ◌^◌, ◌≤◌, ◌<◌, List, Bool, true, false}
use cip_pir.Base.{u8, u32, u64, if◌then◌else◌, ltb, leb, dec_le, dec_lt}
use cip_pir.Base.Memory.{Buffer, advance, write, copy}
use cip_pir.Config.{Config, blocks}

-- `memcmp`, by the sign of its result.
unfoldable pub memcmp : Buffer → Buffer → ℕ → Ordering
memcmp x y zero = Ordering.eq
memcmp x y (suc n) = elim (compare (x 0) (y 0)) [
  | Ordering.lt ↦ Ordering.lt
  | Ordering.eq ↦ memcmp (advance x 1) (advance y 1) n
  | Ordering.gt ↦ Ordering.gt
]

-- The tests of the sign that the code makes.
abbrev pub is_greater : Ordering → Bool
is_greater o = elim o [ Ordering.gt ↦ true | _ ↦ false ]

-- The loop of `swap_ranges`.
swap_bytes : ℕ → ℕ → ℕ → Buffer → Buffer
swap_bytes zero l r db = db
swap_bytes (suc left) l r db = swap_bytes left (l + 1) (r + 1) (write (write db l (db r)) r (db l))

-- The loop of `subtractBytes`, which goes down from the last byte with the borrow.
unfoldable pub subtract_from : ℕ → Buffer → Buffer → Buffer → ℕ → Buffer
subtract_from zero x y z borrow = z
subtract_from (suc i) x y z borrow =
    let less = ltb (x i) (y i + borrow) in
    let difference = if less then u8 (x i + 256 + 16 - (y i + borrow)) else x i - (y i + borrow) in
    subtract_from i x y (write z i difference) (if less then 1 else 0)

unfoldable pub subtract_bytes : Buffer → Buffer → Buffer → ℕ → Buffer
subtract_bytes x y z n = subtract_from n x y z 0

module _ (c : Config) where
  -- `compareDBEntries`
  pub compare_db_entries : Buffer → ℕ → ℕ → Ordering
  compare_db_entries db l r =
      memcmp (advance db (u32 (l * c.entry_size))) (advance db (u32 (r * c.entry_size)))
        c.entry_size

  -- `DBswap`
  pub db_swap : Buffer → ℕ → ℕ → Buffer
  unfolding swap_bytes
  db_swap db l r = swap_bytes c.entry_size (u32 (l * c.entry_size)) (u32 (r * c.entry_size)) db

  -- The loop of `quicksort` from `i` on, with `cnt`; neither gets above `pivot + 1`, which fits
  -- `int32_t` for `pivot + 1 < 2 ^ 31`.
  pub partition_from : ℕ → ℕ → ℕ → ℕ → Buffer → Buffer × ℕ
  partition_from zero pivot i cnt db = (db, cnt)
  partition_from (suc left) pivot i cnt db =
      let keeps = is_greater (compare_db_entries db i pivot) in
      partition_from left pivot (i + 1) (if keeps then cnt else cnt + 1)
        (if keeps then db else db_swap db cnt i)

  -- A call of `quicksort` from `l` up to and without `end`, which is `r + 1`; `end` is 0 for the
  -- `r` of -1. The calls inside it have indices up to its `r`. Each call places one entry for
  -- good, so the number of entries is enough fuel.
  quicksort_fuel : ℕ → Buffer → ℕ → ℕ → Buffer
  quicksort_fuel zero db l end = db
  quicksort_fuel (suc fuel) db l end = elim (dec_le end (l + 1)) [
    | yes _ ↦ db
    | no _ ↦
        let (parted, cnt) = partition_from (end - l) (end - 1) l l db in
        quicksort_fuel fuel (quicksort_fuel fuel parted l (cnt - 1)) cnt end
  ]

  -- `quicksort` as it is called, for an `int32_t` `l` of 0 or more: `r` is what `int32_t` holds of
  -- `end - 1`, and a negative one is below `l`. That `r + 1` is no `int32_t` for `r = 2 ^ 31 - 1`
  -- is left out: the loop's `i++` is then undefined.
  pub quicksort : Buffer → ℕ → ℕ → Buffer
  unfolding quicksort_fuel
  quicksort db l end =
      let r = u32 (end + 2 ^ 32 - 1) in
      elim (dec_lt r (2 ^ 31)) [ yes _ ↦ quicksort_fuel (r + 1 - l) db l (r + 1) | no _ ↦ db ]

  -- The loop of `createManifest`, from block `i` on. `(i - 1) * MANIFEST_BYTES` is a product of a
  -- `uint32_t` and an `int`; the other product has the `uint64_t` of `ENTRIES`.
  unfoldable pub manifest_from : ℕ → ℕ → Buffer → Buffer → Buffer
  manifest_from zero i db entries = entries
  manifest_from (suc left) i db entries =
      let index_manifest = u32 ((i - 1) * c.manifest_bytes) in
      let index_db = u64 (i * (c.entries / blocks c) * c.entry_size) in
      manifest_from left (i + 1) db
        (copy entries index_manifest (advance db index_db) c.manifest_bytes)

  -- `createManifest`: the generator's bytes, of which there are `fe_size`, and then one entry for
  -- each block but the first; what the file has further on is `fresh`.
  unfoldable pub create_manifest : Buffer → ℕ → Buffer → Buffer → Buffer
  unfolding manifest_from
  create_manifest generator fe_size fresh db =
      let entries = manifest_from (blocks c - 1) 1 db fresh in
      copy (copy fresh fe_size entries ((blocks c - 1) * c.manifest_bytes)) 0 generator fe_size
