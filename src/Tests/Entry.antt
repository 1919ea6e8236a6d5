-- ===== src/Tests/Entry.antt =====
-- The entries of a database, the manifest and the search, at a small configuration.

use cip_pir.Base.{
  ℕ, zero, suc, ◌+◌, ◌*◌, ◌/◌, ◌≤◌, ◌<◌, ◌≡◌, [], ◌∷◌, some, refl, arith, ◌∙◌, at, true, u64,
}
use cip_pir.Base.Memory.{Buffer, zeros}
use cip_pir.Config.{blocks}
use cip_pir.Entries.{memcmp, subtract_bytes, subtract_from, create_manifest}
use cip_pir.Lookup.{find_from, read_manifest}
use cip_pir.Lookup.Manifest.{read_manifest-create_manifest}
use cip_pir.Lookup.Search.{above}
use cip_pir.Tests.Setup.{two_byte, toy_curve}

abbrev larger : Buffer
larger i = at (9 ∷ 8 ∷ 7 ∷ []) i

abbrev smaller : Buffer
smaller i = at (1 ∷ 8 ∷ 2 ∷ []) i

smaller-le : (i : ℕ) → i < 3 → smaller i ≤ larger i
smaller-le zero h = omega arith
smaller-le (suc zero) h = omega arith
smaller-le (suc (suc zero)) h = omega arith
smaller-le (suc (suc (suc i))) h = absurd (omega arith)

-- With a borrow, 1 * 256 + 0 less 1 gives 15 where 255 is the difference.
borrow_of_sixteen : subtract_bytes (at (1 ∷ 0 ∷ [])) (at (0 ∷ 1 ∷ [])) zeros 2 1 ≡ 15
unfolding subtract_bytes subtract_from
borrow_of_sixteen = refl

abbrev counting : Buffer
counting i = i

-- Entries 0 1, 2 3, 4 5 and so on; the point stands between the second and the third.
abbrev point : Buffer
point = at (3 ∷ 0 ∷ [])

two_below : (i : ℕ) → i < 2 → above two_byte point counting i ≡ true
unfolding memcmp
two_below zero h = refl
two_below (suc zero) h = refl
two_below (suc (suc i)) h = absurd (omega arith)

search_ends : find_from two_byte 9 point counting 0 ≡ some 2
unfolding find_from memcmp
search_ends = refl

-- The generator 9 and an entry, from a file that `createManifest` wrote.
read_manifest-create_manifest_example :
    let file = create_manifest two_byte (λ i. 9 + i) 3 zeros (λ o. o) in
    ((read_manifest two_byte toy_curve 3 file zeros).0 ≡ 9)
    × ((m j : ℕ)
        → m + 1 < blocks two_byte
        → j < 2
        → (read_manifest two_byte toy_curve 3 file zeros).1 (m * 2 + j)
          ≡ u64 ((m + 1) * (10 / blocks two_byte) * 2) + j)
read_manifest-create_manifest_example =
    read_manifest-create_manifest two_byte toy_curve (λ p b h. h 0 (omega arith) ∙ omega arith)
      (omega arith) 9 zeros zeros (λ o. o)
