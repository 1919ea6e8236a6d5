-- ===== src/Lookup/Manifest.antt =====
-- The client's `readManifest` on a file that `createManifest` of database/createDatabase.cpp wrote.
use cip_pir.Base.{ℕ, ◌+◌, ◌-◌, ◌*◌, ◌/◌, ◌^◌, ◌<◌, ◌≡◌, arith, ◌∙◌, u64}
use cip_pir.Base.Memory.{Buffer, advance, copy-inside}
use cip_pir.Base.Slots.{slot_before}
use cip_pir.Config.{Config, blocks}
use cip_pir.Curve.{Curve}
use cip_pir.Entries.{create_manifest}
use cip_pir.Entries.Manifest.{create_manifest-entry, create_manifest-generator}
use cip_pir.Lookup.{read_manifest}

-- The curve library reads an element back from its `fe_size` bytes.
abbrev pub ReadsBack : Curve → Type 0
ReadsBack curve =
    (p : curve.Fe) (b : Buffer)
    → ((i : ℕ) → i < curve.fe_size → b i ≡ curve.export_to_bytes p i)
    → curve.import_from_bytes b ≡ p

-- The entries of a manifest that was written and read.
pub read_manifest-entry :
    (c : Config) (curve : Curve) (bytes fresh fresh' db : Buffer) (m j : ℕ)
    → blocks c * c.manifest_bytes < 2 ^ 32
    → m + 1 < blocks c
    → j < c.manifest_bytes
    → (read_manifest c curve curve.fe_size
          (create_manifest c bytes curve.fe_size fresh db)
          fresh').1
        (m * c.manifest_bytes + j)
      ≡ db (u64 ((m + 1) * (c.entries / blocks c) * c.entry_size) + j)
unfolding read_manifest
read_manifest-entry c curve bytes fresh fresh' db m j fits h l =
    copy-inside fresh' (advance (create_manifest c bytes curve.fe_size fresh db) curve.fe_size) 0
      ((blocks c - 1) * c.manifest_bytes) _ (m * c.manifest_bytes + j) (omega arith)
      (slot_before m (blocks c - 1) c.manifest_bytes j (omega arith) l)
    ∙ create_manifest-entry c fits bytes fresh db curve.fe_size m j h l

module _ (c : Config) (curve : Curve) (back : ReadsBack curve) where
  -- If the curve library reads back the elements that it writes, and the manifest's size fits
  -- `uint32_t`: from a file that `createManifest` wrote, `readManifest` gives the generator and,
  -- for each block but the first, the first bytes of the entry at `ENTRIES / BLOCKS` times the
  -- block's index.
  pub read_manifest-create_manifest :
      blocks c * c.manifest_bytes < 2 ^ 32
      → (generator : curve.Fe) (fresh fresh' db : Buffer)
      → let file = create_manifest c (curve.export_to_bytes generator) curve.fe_size fresh db in
        ((read_manifest c curve curve.fe_size file fresh').0 ≡ generator)
        × ((m j : ℕ)
            → m + 1 < blocks c
            → j < c.manifest_bytes
            → (read_manifest c curve curve.fe_size file fresh').1 (m * c.manifest_bytes + j)
              ≡ db (u64 ((m + 1) * (c.entries / blocks c) * c.entry_size) + j))
  unfolding read_manifest
  read_manifest-create_manifest fits generator fresh fresh' db =
      let bytes = curve.export_to_bytes generator in
      let file = create_manifest c bytes curve.fe_size fresh db in
      (
        back generator file (λ i h. create_manifest-generator c bytes fresh db curve.fe_size i h),
        λ m j h l. read_manifest-entry c curve bytes fresh fresh' db m j fits h l,
      )
