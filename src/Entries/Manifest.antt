-- ===== src/Entries/Manifest.antt =====
-- What the manifest of a database holds.
use native.Mathlib.Nat.{mod-eq_of_lt}
use cip_pir.Base.{
  ℕ, zero, suc, ◌+◌, ◌-◌, ◌*◌, ◌/◌, ◌^◌, ◌≤◌, ◌<◌, ◌≡◌, ◌≢◌, inr, arith, refl, ap, sym, ◌∙◌, u32,
  u64, ℕ_discrete,
}
use cip_pir.Base.Memory.{Buffer, advance, copy, copy-inside, copy-outside}
use cip_pir.Config.{Config, blocks}
use cip_pir.Base.Slots.{slots_apart, slot_before}
use cip_pir.Entries.{manifest_from, create_manifest}

module _ (c : Config) (small : blocks c * c.manifest_bytes < 2 ^ 32) where
  abbrev from_block : ℕ → Buffer → Buffer
  from_block i db = advance db (u64 (i * (c.entries / blocks c) * c.entry_size))

  entry_place :
      (m j : ℕ)
      → m < blocks c
      → j < c.manifest_bytes
      → u32 ((m + 1 - 1) * c.manifest_bytes) ≡ m * c.manifest_bytes
  entry_place m j h l =
      ap (λ t. u32 (t * c.manifest_bytes)) (omega arith)
      ∙ mod-eq_of_lt (omega (arith, small, slot_before m (blocks c) c.manifest_bytes j h l))

  -- One round: the entry of block `i` is written, the others stay.
  round_here :
      (i : ℕ) (db entries : Buffer) (j : ℕ)
      → i < blocks c
      → j < c.manifest_bytes
      → copy entries
          (u32 ((i + 1 - 1) * c.manifest_bytes))
          (from_block (i + 1) db)
          c.manifest_bytes
          (i * c.manifest_bytes + j)
        ≡ from_block (i + 1) db j
  round_here i db entries j h l =
      copy-inside entries (from_block (i + 1) db) _ c.manifest_bytes _ j
        (ap (λ t. t + j) (sym (entry_place i j h l))) l

  round_apart :
      (i m : ℕ) (db entries : Buffer) (j : ℕ)
      → i < blocks c
      → m ≢ i
      → j < c.manifest_bytes
      → copy entries
          (u32 ((i + 1 - 1) * c.manifest_bytes))
          (from_block (i + 1) db)
          c.manifest_bytes
          (m * c.manifest_bytes + j)
        ≡ entries (m * c.manifest_bytes + j)
  round_apart i m db entries j h n l =
      ap (λ t. copy entries t (from_block (i + 1) db) c.manifest_bytes (m * c.manifest_bytes + j))
        (entry_place i j h l)
      ∙ copy-outside entries (from_block (i + 1) db) (i * c.manifest_bytes) c.manifest_bytes _
          (slots_apart m i c.manifest_bytes j n l)

  manifest_from-before :
      (left i m : ℕ) (db entries : Buffer) (j : ℕ)
      → i + left < blocks c
      → m < i
      → j < c.manifest_bytes
      → manifest_from c left (i + 1) db entries (m * c.manifest_bytes + j)
        ≡ entries (m * c.manifest_bytes + j)
  unfolding manifest_from
  manifest_from-before zero i m db entries j h p l = refl
  manifest_from-before (suc left) i m db entries j h p l =
      manifest_from-before left (i + 1) m db
        (copy entries (u32 ((i + 1 - 1) * c.manifest_bytes)) (from_block (i + 1) db)
          c.manifest_bytes)
        j (omega arith) (omega arith) l
      ∙ round_apart i m db entries j (omega arith) (λ e. omega (arith, e)) l

  manifest_from-at :
      (left i m : ℕ) (db entries : Buffer) (j : ℕ)
      → i + left < blocks c
      → i ≤ m
      → m < i + left
      → j < c.manifest_bytes
      → manifest_from c left (i + 1) db entries (m * c.manifest_bytes + j) ≡ from_block (m + 1) db j
  unfolding manifest_from
  manifest_from-at zero i m db entries j h p q l = absurd (omega arith)
  manifest_from-at (suc left) i m db entries j h p q l = elim (ℕ_discrete m i) [
    | yes e ↦
        manifest_from-before left (i + 1) m db
          (copy entries (u32 ((i + 1 - 1) * c.manifest_bytes)) (from_block (i + 1) db)
            c.manifest_bytes)
          j (omega arith) (omega arith) l
        ∙ ap
            (λ t.
              (copy entries (u32 ((i + 1 - 1) * c.manifest_bytes)) (from_block (i + 1) db)
                  c.manifest_bytes)
                (t * c.manifest_bytes + j))
            e
        ∙ round_here i db entries j (omega arith) l
        ∙ ap (λ t. from_block (t + 1) db j) (sym e)
    | no n ↦
        manifest_from-at left (i + 1) m db
          (copy entries (u32 ((i + 1 - 1) * c.manifest_bytes)) (from_block (i + 1) db)
            c.manifest_bytes)
          j (omega arith) (omega arith) (omega arith) l
  ]

  -- Behind the generator, the manifest has the first bytes of the first entry of each block but
  -- the first block, where a block is taken to have `ENTRIES / BLOCKS` entries.
  pub create_manifest-entry :
      (generator fresh db : Buffer) (fe_size m j : ℕ)
      → m + 1 < blocks c
      → j < c.manifest_bytes
      → create_manifest c generator fe_size fresh db (fe_size + (m * c.manifest_bytes + j))
        ≡ db (u64 ((m + 1) * (c.entries / blocks c) * c.entry_size) + j)
  unfolding create_manifest
  create_manifest-entry generator fresh db fe_size m j h l =
      let entries = manifest_from c (blocks c - 1) 1 db fresh in
      copy-outside (copy fresh fe_size entries ((blocks c - 1) * c.manifest_bytes)) generator 0
        fe_size (fe_size + (m * c.manifest_bytes + j)) (inr (omega arith))
      ∙ copy-inside fresh entries fe_size ((blocks c - 1) * c.manifest_bytes)
          (fe_size + (m * c.manifest_bytes + j)) (m * c.manifest_bytes + j) refl
          (slot_before m (blocks c - 1) c.manifest_bytes j (omega arith) l)
      ∙ manifest_from-at (blocks c - 1) 0 m db fresh j (omega arith) (omega arith) (omega arith) l

-- In front the manifest has the generator's bytes.
pub create_manifest-generator :
    (c : Config) (generator fresh db : Buffer) (fe_size i : ℕ)
    → i < fe_size
    → create_manifest c generator fe_size fresh db i ≡ generator i
unfolding create_manifest
create_manifest-generator c generator fresh db fe_size i h =
    copy-inside
      (copy fresh fe_size (manifest_from c (blocks c - 1) 1 db fresh)
        ((blocks c - 1) * c.manifest_bytes))
      generator 0 fe_size i i (omega arith) h
