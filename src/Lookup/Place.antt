-- ===== src/Lookup/Place.antt =====
-- In which block of a sorted database the search of `checkHash` looks for a point, if each block
-- has `ENTRIES / BLOCKS` entries.
use Prim.Native.Nat.{compare, Ordering}
use cip_pir.Base.{
  ℕ, zero, suc, ◌+◌, ◌-◌, ◌*◌, ◌/◌, ◌^◌, ◌≤◌, ◌<◌, ◌≡◌, ◌≢◌, arith, ap, sym, ◌∙◌, true, false, u32,
  u64, dec_lt, ltb→lt,
}
use mathlib.Core.Path.{subst}
use native.Mathlib.Nat.{mod-eq_of_lt, mul_assoc, mul-div-le, mul-div_left}
use cip_pir.Base.Memory.{Buffer, advance, IsBytes}
use cip_pir.Base.Slots.{slot_before}
use cip_pir.Config.{Config, IsConfig, blocks}
use cip_pir.Config.Sizes.{sizes_cover}
use cip_pir.Entries.{is_greater}
use cip_pir.Entries.Number.{number, memcmp-ext, memcmp-number, number-prefix, is_greater-compare}
use cip_pir.Entries.Rearrange.{key}
use cip_pir.Entries.Sort.{IsAscending}
use cip_pir.Lookup.{against_manifest, against_entry}
use cip_pir.Lookup.Search.{above, IsFirst}

-- A block has whole entries, as many as the manifest takes it to have; the manifest has no more of
-- an entry than there is; and the manifest's size fits `uint32_t`.
pub record IsEven (c : Config) : Type 0 where
  pub some_entry : 1 ≤ c.entry_size
  pub some_entries : 1 ≤ c.entries
  pub whole_blocks : c.entries / blocks c * c.entry_size ≡ c.block_size
  pub part_of_entry : c.manifest_bytes ≤ c.entry_size
  pub small_manifest : blocks c * c.manifest_bytes < 2 ^ 32

all_in_blocks : (n es bs b e : ℕ) → 1 ≤ es → e * es ≡ bs → n * es ≤ b * bs → b * e ≤ n → n ≡ b * e
all_in_blocks n es bs b e positive whole cover in_all = elim (dec_lt (b * e) n) [
  | yes h ↦ absurd (
      omega (
        arith,
        cover,
        mul_assoc b e es,
        ap (λ t. b * t) whole,
        slot_before (b * e) n es 0 h positive,
      ))
  | no h ↦ omega arith
]

times-suc : (m e : ℕ) → (m + 1) * e ≡ m * e + e
times-suc m e = omega arith

not_above : (a b : ℕ) → is_greater (compare a b) ≡ false → compare a b ≢ Ordering.eq → a < b
not_above a b h n = ground arith

module _ (c : Config) (v : IsConfig c) (even : IsEven c) where
  abbrev pub each : ℕ
  each = c.entries / blocks c

  pub all_entries : c.entries ≡ blocks c * each
  all_entries =
      all_in_blocks c.entries c.entry_size c.block_size (blocks c) each even.some_entry
        even.whole_blocks (sizes_cover c v).0 (mul-div-le c.entries (blocks c))

  pub block_entries : c.block_size / c.entry_size ≡ each
  block_entries =
      ap (λ t. t / c.entry_size) (sym even.whole_blocks) ∙ mul-div_left each even.some_entry

  all_fit : blocks c * c.block_size < 2 ^ 64
  all_fit = bound (blocks c * c.block_size) (sizes_cover c v).1
    where
      bound : (n : ℕ) → n < c.entries * c.entry_size + c.block_size → n < 2 ^ 64
      bound n h = omega (arith, v.small_db)

  pub each_pos : (e : ℕ) → e * c.entry_size ≡ c.block_size → 1 ≤ e
  each_pos zero h = absurd (omega (arith, v.some_block))
  each_pos (suc e) h = omega arith

  pub manifest_fits : blocks c * c.manifest_bytes < 2 ^ 32
  manifest_fits = even.small_manifest

  -- The first entry of block `m`.
  pub first_entry : (m : ℕ) → m * each * c.entry_size ≡ m * c.block_size
  first_entry m = mul_assoc m each c.entry_size ∙ ap (λ t. m * t) even.whole_blocks

  first_fits : (m : ℕ) → m < blocks c → u64 (m * each * c.entry_size) ≡ m * each * c.entry_size
  first_fits m h = mod-eq_of_lt (small (m * each * c.entry_size) (first_entry m))
    where
      small : (a : ℕ) → a ≡ m * c.block_size → a < 2 ^ 64
      small a e = omega (arith, all_fit, slot_before m (blocks c) c.block_size 0 h v.some_block)

  module _ (db point : Buffer) (bytes : IsBytes db) (point_bytes : IsBytes point) where
    -- An entry of a block that is entry `i` of the database.
    pub against_entry-key :
        (block : Buffer) (t i : ℕ)
        → ((j : ℕ) → j < c.entry_size → block (t * c.entry_size + j) ≡ db (i * c.entry_size + j))
        → against_entry c point block t ≡ compare (number c.entry_size point) (key c db i)
    against_entry-key block t i same =
        memcmp-ext c.entry_size point (advance block (t * c.entry_size))
          (advance db (i * c.entry_size)) same
        ∙ memcmp-number c.entry_size point (advance db (i * c.entry_size)) point_bytes
            (λ j. bytes (i * c.entry_size + j))

    module _ (manifest : Buffer)
        (held : (m j : ℕ)
          → m + 1 < blocks c
          → j < c.manifest_bytes
          → manifest (m * c.manifest_bytes + j)
            ≡ db (u64 ((m + 1) * each * c.entry_size) + j)) where
      below_fits : (a j : ℕ) → a + j < blocks c * c.manifest_bytes → a < 2 ^ 32
      below_fits a j h = omega (arith, manifest_fits)

      -- The manifest's entry `m` is the front of entry `(m + 1) * each`.
      against_manifest-number :
          (m : ℕ)
          → m + 1 < blocks c
          → against_manifest c point manifest m
            ≡ compare
                (number c.manifest_bytes point)
                (number c.manifest_bytes (advance db ((m + 1) * each * c.entry_size)))
      against_manifest-number m h =
          memcmp-ext c.manifest_bytes point (advance manifest (u32 (m * c.manifest_bytes)))
            (advance db ((m + 1) * each * c.entry_size))
            (λ j l.
              (let place : u32 (m * c.manifest_bytes) ≡ m * c.manifest_bytes = mod-eq_of_lt (
                  below_fits (m * c.manifest_bytes) j
                    (slot_before m (blocks c) c.manifest_bytes j (omega arith) l)) in
                ap (λ t. manifest (t + j)) place
                ∙ held m j h l
                ∙ ap (λ t. db (t + j)) (first_fits (m + 1) h)))
          ∙ memcmp-number c.manifest_bytes point (advance db ((m + 1) * each * c.entry_size))
              point_bytes (λ j. bytes _)

      abbrev pub point_number : ℕ
      point_number = number c.entry_size point

      whole_entry : c.manifest_bytes + (c.entry_size - c.manifest_bytes) ≡ c.entry_size
      whole_entry = omega (arith, even.part_of_entry)

      prefix-lt :
          (x y : Buffer)
          → IsBytes x
          → IsBytes y
          → number c.manifest_bytes x < number c.manifest_bytes y
          → number c.entry_size x < number c.entry_size y
      prefix-lt x y h l p =
          subst (λ n. number n x < number n y) whole_entry
            (number-prefix (c.entry_size - c.manifest_bytes) c.manifest_bytes x y h l p)

      -- A point above the manifest's entry `m` is above the first entry of block `m + 1`.
      above-key :
          (m : ℕ)
          → m + 1 < blocks c
          → above c point manifest m ≡ true
          → key c db ((m + 1) * each) < point_number
      above-key m h e =
          let first = advance db ((m + 1) * each * c.entry_size) in
          prefix-lt first point (λ j. bytes _) point_bytes
            (ltb→lt _ _ (
              sym (is_greater-compare _ _) ∙ ap is_greater (sym (against_manifest-number m h)) ∙ e))

      -- One that is not, and does not begin as that entry does, is below it.
      below-key :
          (m : ℕ)
          → m + 1 < blocks c
          → above c point manifest m ≡ false
          → against_manifest c point manifest m ≢ Ordering.eq
          → point_number < key c db ((m + 1) * each)
      below-key m h e n =
          prefix-lt point (advance db ((m + 1) * each * c.entry_size)) point_bytes (λ j. bytes _)
            (not_above _ _ (ap is_greater (sym (against_manifest-number m h)) ∙ e)
              (λ z. n (against_manifest-number m h ∙ z)))

      module _ (ascending : IsAscending c 0 c.entries db) where
        -- If the search ends at `index`, the point can only be in that block.
        pub only_block :
            (index i : ℕ)
            → IsFirst c point manifest 0 index
            → index + 1 < blocks c
            → against_manifest c point manifest index ≢ Ordering.eq
            → i < c.entries
            → point_number ≡ key c db i
            → (index * each ≤ i) × (i < index * each + each)
        only_block index i first h n l e = (lower index first h, upper)
          where
            next_lem : (m : ℕ) → suc m * each ≡ (m + 1) * each
            next_lem m = omega arith

            first_below : (m : ℕ) → suc m + 1 < blocks c → (m + 1) * each < c.entries
            first_below m h = omega (
              arith,
              all_entries,
              slot_before (m + 1) (blocks c) each 0 (omega arith) (each_pos each even.whole_blocks),
            )

            next_above :
                (m : ℕ)
                → IsFirst c point manifest 0 (suc m)
                → suc m + 1 < blocks c
                → key c db ((m + 1) * each) < point_number
            next_above m first h =
                above-key m (omega arith) (first.goes_on m (omega arith) (omega arith))

            upper : i < index * each + each
            upper = elim (dec_lt i (index * each + each)) [
              | yes p ↦ p
              | no p ↦ absurd (
                  omega (
                    arith,
                    e,
                    below-key index h first.stops n,
                    ascending ((index + 1) * each) i (omega arith)
                        (omega (arith, times-suc index each)) l,
                  ))
            ]

            lower :
                (index : ℕ)
                → IsFirst c point manifest 0 index
                → index + 1 < blocks c
                → index * each ≤ i
            lower zero first h = omega arith
            lower (suc m) first h = elim (dec_lt i (suc m * each)) [
              | no p ↦ omega arith
              | yes p ↦ absurd (
                  omega (
                    arith,
                    e,
                    next_above m first h,
                    ascending i ((m + 1) * each) (omega arith) (omega (arith, next_lem m))
                        (first_below m h),
                  ))
            ]
