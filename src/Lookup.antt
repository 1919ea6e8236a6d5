-- ===== src/Lookup.antt =====
-- `checkHash` of Client/CIP_pirClient.cpp: the blinding, the search of the manifest for a block,
-- the request for that block and the search in it.
pub mod Search
pub mod Scan
pub mod Manifest
pub mod Place
pub mod Membership
use Prim.Native.Nat.{Ordering}
use cip_pir.Base.{ℕ, zero, suc, ◌+◌, ◌-◌, ◌*◌, ◌/◌, List, Bool, true, false, Option, none, some}
use cip_pir.Base.{u32}
use cip_pir.Base.Memory.{Buffer, advance, copy}
use cip_pir.Config.{Config, blocks}
use cip_pir.Curve.{Curve, translate_to_point, unblind_hash, blind_hash}
use cip_pir.Server.{Crypto}
use cip_pir.Client.{Client, init_request}
use cip_pir.Protocol.{Peer, receive_seeds, run_pir}
use cip_pir.Entries.{memcmp, is_greater}

module _ (c : Config) where
  -- `memcmp(pointBytes, &manifest[index * MANIFEST_BYTES], MANIFEST_BYTES)`, with a `uint32_t`
  -- `index` and an `int`
  abbrev pub against_manifest : Buffer → Buffer → ℕ → Ordering
  against_manifest point manifest index =
      memcmp point (advance manifest (u32 (index * c.manifest_bytes))) c.manifest_bytes

  -- The loop that counts `index` up, for at most `fuel` entries. It does not know where the
  -- manifest ends: `manifest` is the memory behind the pointer.
  unfoldable pub find_from : ℕ → Buffer → Buffer → ℕ → Option ℕ
  find_from zero point manifest index = none
  find_from (suc fuel) point manifest index =
      elim (is_greater (against_manifest point manifest index)) [
        | true ↦ find_from fuel point manifest (u32 (index + 1))
        | false ↦ some index
      ]

  -- `memcmp(pointBytes, &result[i * ENTRYSIZE], ENTRYSIZE)`
  abbrev pub against_entry : Buffer → Buffer → ℕ → Ordering
  against_entry point block i = memcmp point (advance block (i * c.entry_size)) c.entry_size

  -- The loop over the entries of the block, from entry `i` on.
  pub scan_from : ℕ → Buffer → Buffer → ℕ → Bool
  scan_from zero point block i = false
  scan_from (suc left) point block i = elim (against_entry point block i) [
    | Ordering.eq ↦ true
    | Ordering.lt ↦ false
    | Ordering.gt ↦ scan_from left point block (i + 1)
  ]

  -- `readManifest`, from the bytes of the file: the generator's, and the entries that are copied
  -- into the memory at `fresh`.
  unfoldable pub read_manifest : (curve : Curve) → ℕ → Buffer → Buffer → curve.Fe × Buffer
  read_manifest curve fe_size file fresh = (
    curve.import_from_bytes file,
    copy fresh 0 (advance file fe_size) ((blocks c - 1) * c.manifest_bytes),
  )

  module _ (curve : Curve) (k : Crypto) (peers : ℕ → Peer) where
    -- The bytes that the client searches for: the point is blinded, and unblinded after the
    -- servers' seeds have come; what server 0 made of it, `H_ab`, is not used.
    unfoldable pub point_bytes : curve.Fe → curve.Fe → Buffer → ℕ → Buffer
    point_bytes generator client_key hash hash_size =
        let h_a = translate_to_point curve hash hash_size generator in
        let blinded = blind_hash curve h_a client_key in
        curve.export_to_bytes (unblind_hash curve blinded client_key)

    -- `checkHash`: whether the hash is in the database, or `none` if the search of the manifest
    -- has not ended.
    pub check_hash :
        ℕ → List ℕ → List ℕ → Buffer → curve.Fe → curve.Fe → Buffer → ℕ → Client → Option Bool
    unfolding find_from scan_from point_bytes
    check_hash fuel seeds_order answers_order manifest generator client_key hash hash_size s =
        let point = point_bytes generator client_key hash hash_size in
        let seeded = receive_seeds c k peers seeds_order (init_request c s) in
        elim (find_from fuel point manifest 0) [
          | none ↦ none
          | some index ↦
              let result = (run_pir c k peers answers_order index seeded).result_buf in
              some (scan_from (c.block_size / c.entry_size) point result 0)
        ]
