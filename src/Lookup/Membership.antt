-- ===== src/Lookup/Membership.antt =====
-- `checkHash` as a whole, with the manifest and the servers, on a sorted database.
use Prim.Native.Nat.{compare, Ordering}
use mathlib.Core.Path.{subst}
use cip_pir.Base.{
  ℕ, ◌+◌, ◌-◌, ◌*◌, ◌/◌, ◌≤◌, ◌<◌, ◌≡◌, ◌≢◌, ◌↔◌, arith, ap, sym, ◌∙◌, Bool, true, false, Option,
  none, some, List,
}
use cip_pir.Base.Memory.{Buffer, advance, IsBytes}
use cip_pir.Base.Order.{IsOrder}
use cip_pir.Base.Slots.{slot_before}
use cip_pir.Config.{Config, IsConfig, blocks}
use cip_pir.Config.Sizes.{sizes_cover}
use cip_pir.Curve.{Curve}
use cip_pir.Tables.{IsTable}
use cip_pir.Server.{Crypto, DbFile}
use cip_pir.Client.{Client, init_request}
use cip_pir.Protocol.{Peer, receive_seeds, run_pir}
use cip_pir.Protocol.Retrieval.{IsReady, run_pir_returns_block}
use cip_pir.Entries.{create_manifest}
use cip_pir.Entries.Number.{number, number-ext, number-inj, compare-eq, compare-lt}
use cip_pir.Entries.Rearrange.{key}
use cip_pir.Entries.Sort.{IsAscending}
use cip_pir.Lookup.{
  against_manifest, against_entry, scan_from, read_manifest, point_bytes, check_hash,
}
use cip_pir.Lookup.Manifest.{read_manifest-entry}
use cip_pir.Lookup.Place.{
  IsEven, each, all_entries, block_entries, manifest_fits, first_entry, against_entry-key,
  only_block,
}
use cip_pir.Lookup.Scan.{scan_from-finds, scan_from-found}
use cip_pir.Lookup.Search.{above, find_from-IsFirst}

spread : (a t es j : ℕ) → a * es + (t * es + j) ≡ (a + t) * es + j
spread a t es j = grind arith

-- The point is an entry of the database.
abbrev pub IsIn : Config → Buffer → Buffer → Type 0
IsIn c db point =
    (i : ℕ) × (i < c.entries) × ((j : ℕ) → j < c.entry_size → db (i * c.entry_size + j) ≡ point j)

module _ (c : Config) (v : IsConfig c) (even : IsEven c) (db point : Buffer) (bytes : IsBytes db)
    (point_bytes : IsBytes point) (ascending : IsAscending c 0 c.entries db) where
  -- The scan of the block `index` finds the point exactly if it is in the database, if it can be
  -- in no other block.
  scan_lem :
      (block : Buffer) (index : ℕ)
      → ((j : ℕ) → j < c.block_size → block j ≡ db (index * c.block_size + j))
      → index < blocks c
      → ((i : ℕ)
          → i < c.entries
          → number c.entry_size point ≡ key c db i
          → (index * each c v even ≤ i) × (i < index * each c v even + each c v even))
      → (scan_from c (c.block_size / c.entry_size) point block 0 ≡ true) ↔ IsIn c db point
  scan_lem block index held inside only = (found, finds)
    where
      n : ℕ
      n = each c v even

      same :
          (t j : ℕ)
          → t < n
          → j < c.entry_size
          → block (t * c.entry_size + j) ≡ db ((index * n + t) * c.entry_size + j)
      same t j p q =
          held (t * c.entry_size + j) (
            subst (λ z. t * c.entry_size + j < z) even.whole_blocks
              (slot_before t n c.entry_size j p q))
          ∙ ap (λ z. db (z + (t * c.entry_size + j))) (sym (first_entry c v even index))
          ∙ ap db (spread (index * n) t c.entry_size j)

      against :
          (t : ℕ)
          → t < n
          → against_entry c point block t
            ≡ compare (number c.entry_size point) (key c db (index * n + t))
      against t p =
          against_entry-key c v even db point bytes point_bytes block t (index * n + t)
            (λ j q. same t j p q)

      found : scan_from c (c.block_size / c.entry_size) point block 0 ≡ true → IsIn c db point
      found e =
          let (t, p, q) = scan_from-found c point block (c.block_size / c.entry_size) 0 e in
          let before : t < c.block_size / c.entry_size = omega arith in
          let below : t < n = subst (λ z. t < z) (block_entries c v even) before in
          (
            index * n + t,
            subst (λ z. index * n + t < z) (sym (all_entries c v even))
                (slot_before index (blocks c) n t inside below),
            λ j l. sym (
                number-inj c.entry_size j point (advance db ((index * n + t) * c.entry_size))
                  point_bytes (λ x. bytes _) ((compare-eq _ _).0 (sym (against t below) ∙ q)) l),
          )

      finds : IsIn c db point → scan_from c (c.block_size / c.entry_size) point block 0 ≡ true
      finds (i, l, b) =
          let equal : number c.entry_size point ≡ key c db i =
            number-ext c.entry_size point (advance db (i * c.entry_size)) (λ j h. sym (b j h)) in
          let (from, to) = only i l equal in
          let after : index * n + (i - index * n) ≡ i = omega arith in
          let inner : i - index * n < n = omega arith in
          scan_from-finds c point block (c.block_size / c.entry_size) 0 (i - index * n)
            (omega arith) (omega (arith, inner, block_entries c v even))
            (against (i - index * n) inner ∙ (compare-eq _ _).1 (equal ∙ ap (key c db) (sym after)))
            (λ t p q h. absurd (
              omega (
                arith,
                equal,
                ascending (index * n + t) i (omega arith) (omega arith) l,
                compare-lt _ _ (sym (against t (omega arith)) ∙ h),
              )))

module _ (c : Config) (v : IsConfig c) (even : IsEven c) (k : Crypto) (peers : ℕ → Peer)
    (f : DbFile) (fe_size : ℕ) (table : ℕ → Buffer)
    (preprocessed : IsTable c (advance f.body (1 + fe_size + fe_size)) table)
    (ready : (id : ℕ) (id_in : id < c.servers) → IsReady c v k f fe_size id id_in (peers id))
    (db : Buffer) (bytes : IsBytes db) (ascending : IsAscending c 0 c.entries db)
    (laid_out : (b j : ℕ)
      → b < blocks c
      → j < c.block_size
      → table b j ≡ db (b * c.block_size + j)) where
  -- `checkHash` says whether the bytes of the hash's point are an entry of the database, if
  -- - the database is sorted and has whole entries in each block, the servers have loaded its
  --   preprocessed file, and every tuple that they draw holds the block of its seed;
  -- - the manifest is the one that `createManifest` made and `readManifest` read, and its size fits
  --   `uint32_t`;
  -- - some entry of the manifest is not below the point, and none begins as the point does;
  -- - the search has fuel for the manifest.
  -- It does so in whatever order the seeds and the answers come in.
  pub check_hash-IsIn :
      (curve : Curve) (gen_bytes fresh fresh' : Buffer) (generator client_key : curve.Fe)
      (hash : Buffer) (hash_size fuel limit : ℕ) (seeds_order answers_order : List ℕ) (s : Client)
      → let manifest =
          (read_manifest c curve curve.fe_size
            (create_manifest c gen_bytes curve.fe_size fresh db)
            fresh').1 in
        let point = point_bytes c curve k peers generator client_key hash hash_size in
        IsBytes point
        → limit < fuel
        → limit + 1 < blocks c
        → above c point manifest limit ≡ false
        → ((m : ℕ) → m + 1 < blocks c → against_manifest c point manifest m ≢ Ordering.eq)
        → IsOrder c.servers seeds_order
        → IsOrder c.servers answers_order
        → (b : Bool) × (check_hash c curve k peers fuel seeds_order answers_order manifest generator
              client_key hash hash_size s
            ≡ some b)
          × ((b ≡ true) ↔ IsIn c db point)
  unfolding check_hash
  check_hash-IsIn curve gen_bytes fresh fresh' generator client_key hash hash_size fuel limit
        seeds_order answers_order s point_is enough inside stops differ once once' =
      let (index, found, l, first) =
        find_from-IsFirst c point manifest fuel limit enough
          (omega (arith, v.small_groups, sizes_cover c v)) stops in
      let block = result index in
      (
        scan_from c (c.block_size / c.entry_size) point block 0,
        ap
            (λ o. elim o as (λ z. Option Bool) [
              | none ↦ none
              | some i ↦ some (scan_from c (c.block_size / c.entry_size) point (result i) 0)
            ])
            found,
        scan_lem c v even db point bytes point_is ascending block index
            (λ j h.
              run_pir_returns_block c v k peers f fe_size table preprocessed ready index
                (omega (arith, sizes_cover c v)) seeds_order answers_order s j once once' h
              ∙ laid_out index j (omega arith) h)
            (omega arith)
            (λ i h e.
              only_block c v even db point bytes point_is manifest
                (λ m j h l.
                  read_manifest-entry c curve gen_bytes fresh fresh' db m j (manifest_fits c v even)
                    h l)
                ascending index i first (omega arith) (differ index (omega arith)) h e),
      )
    where
      point : Buffer
      point = point_bytes c curve k peers generator client_key hash hash_size

      manifest : Buffer
      manifest =
          (read_manifest c curve curve.fe_size (create_manifest c gen_bytes curve.fe_size fresh db)
            fresh').1

      result : ℕ → Buffer
      result index =
          (run_pir c k peers answers_order index
            (receive_seeds c k peers seeds_order (init_request c s))).result_buf
