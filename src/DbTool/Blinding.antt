-- ===== src/DbTool/Blinding.antt =====
-- What `blindDB` makes of the entries, and what `generateRandomDB` writes.
use cip_pir.Base.{
  ℕ, zero, suc, ◌+◌, ◌-◌, ◌*◌, ◌^◌, ◌≤◌, ◌<◌, ◌≡◌, inl, arith, refl, ap, sym, ◌∙◌, u32, u64,
  ℕ_discrete,
}
use native.Mathlib.Nat.{mod-eq_of_lt}
use cip_pir.Base.Memory.{Buffer, advance, copy, copy-inside, copy-outside, IsBytes}
use cip_pir.Base.Slots.{slot_before}
use cip_pir.Config.{Config, db_size}
use cip_pir.Curve.{Curve, translate_to_point, blind_hash}
use cip_pir.Entries.{quicksort}
use cip_pir.Entries.Number.{number-ext}
use cip_pir.Entries.Rearrange.{key}
use cip_pir.Entries.Sort.{IsAscending, IsSorting, quicksort-IsSorting}
use cip_pir.DbTool.{blind_from, blind_db, generate_random_db}

le_times : (i n e : ℕ) → i ≤ n → i * e ≤ n * e
le_times zero n e h = omega arith
le_times (suc i) zero e h = absurd (omega arith)
le_times (suc i) (suc n) e h = omega (arith, le_times i n e (omega arith))

copy-IsBytes : (buf src : Buffer) (k n : ℕ) → IsBytes buf → IsBytes src → IsBytes (copy buf k src n)
copy-IsBytes buf src k n h l i = ground (arith, h i, l (i - k))

module _ (c : Config) (curve : Curve) (size : ℕ) (unblinded : Buffer)
    (generator secret : curve.Fe) where
  -- The hash of the blinded point of the entry at an offset.
  abbrev hashed : ℕ → Buffer
  hashed o =
      curve.sha256_hash
        (curve.export_to_bytes
          (blind_hash curve (translate_to_point curve (advance unblinded o) size generator) secret))
        curve.fe_size

  -- That of an entry.
  abbrev pub blinded_entry : ℕ → Buffer
  blinded_entry i = hashed (i * size)

  module _ (few_unblinded : c.entries * size < 2 ^ 32)
      (few : c.entries * c.entry_size < 2 ^ 32) where
    source : (i : ℕ) → i < c.entries → hashed (u32 (i * size)) ≡ blinded_entry i
    source i h =
        ap hashed
          (mod-eq_of_lt (omega (arith, few_unblinded, le_times i c.entries size (omega arith))))

    target : (i : ℕ) → i < c.entries → u64 (i * c.entry_size) ≡ i * c.entry_size
    target i h = mod-eq_of_lt (omega (arith, few, le_times i c.entries c.entry_size (omega arith)))

    -- One round of the loop.
    round :
        (i : ℕ) (db : Buffer)
        → i < c.entries
        → copy db (u64 (i * c.entry_size)) (hashed (u32 (i * size))) c.entry_size
          ≡ copy db (i * c.entry_size) (blinded_entry i) c.entry_size
    round i db h =
        ap (λ o. copy db o (hashed (u32 (i * size))) c.entry_size) (target i h)
        ∙ ap (λ b. copy db (i * c.entry_size) b c.entry_size) (source i h)

    blind_from-before :
        (left i m j : ℕ) (db : Buffer)
        → i + left ≤ c.entries
        → m < i
        → j < c.entry_size
        → blind_from c curve left i size unblinded generator secret db (m * c.entry_size + j)
          ≡ db (m * c.entry_size + j)
    unfolding blind_from
    blind_from-before zero i m j db n h l = refl
    blind_from-before (suc left) i m j db n h l =
        blind_from-before left (i + 1) m j _ (omega arith) (omega arith) l
        ∙ ap (λ b. b (m * c.entry_size + j)) (round i db (omega arith))
        ∙ copy-outside db (blinded_entry i) (i * c.entry_size) c.entry_size (m * c.entry_size + j)
            (inl (slot_before m i c.entry_size j h l))

    blind_from-at :
        (left i m j : ℕ) (db : Buffer)
        → i + left ≤ c.entries
        → i ≤ m
        → m < i + left
        → j < c.entry_size
        → blind_from c curve left i size unblinded generator secret db (m * c.entry_size + j)
          ≡ blinded_entry m j
    unfolding blind_from
    blind_from-at zero i m j db n p q l = absurd (omega arith)
    blind_from-at (suc left) i m j db n p q l = elim (ℕ_discrete m i) [
      | yes e ↦
          blind_from-before left (i + 1) m j _ (omega arith) (omega arith) l
          ∙ ap (λ b. b (m * c.entry_size + j)) (round i db (omega arith))
          ∙ copy-inside db (blinded_entry i) (i * c.entry_size) c.entry_size (m * c.entry_size + j)
              j (ap (λ t. t * c.entry_size + j) e) l
          ∙ ap (λ t. blinded_entry t j) (sym e)
      | no ne ↦ blind_from-at left (i + 1) m j _ (omega arith) (omega arith) (omega arith) l
    ]

    module _ (hashes : (b : Buffer) (n : ℕ) → IsBytes (curve.sha256_hash b n)) where
      blind_from-IsBytes :
          (left i : ℕ) (db : Buffer)
          → IsBytes db
          → IsBytes (blind_from c curve left i size unblinded generator secret db)
      unfolding blind_from
      blind_from-IsBytes zero i db h = h
      blind_from-IsBytes (suc left) i db h = blind_from-IsBytes left (i + 1) _ (
          copy-IsBytes db (hashed (u32 (i * size))) (u64 (i * c.entry_size)) c.entry_size h
            (hashes _ _))

      -- For a hash that gives bytes, fewer than 2^31 entries, and fewer than 2^32 bytes of them
      -- both unblinded and in the database: behind generator and key, the file that
      -- `generateRandomDB` writes has, in ascending order, for each unblinded entry the hash of its
      -- blinded point.
      pub generate_random_db-IsAscending :
          (fresh : Buffer)
          → IsBytes fresh
          → c.entries < 2 ^ 31
          → let made = generate_random_db c curve size unblinded generator secret fresh in
            let body = advance made.file.body (curve.fe_size + curve.fe_size) in
            (from back : ℕ → ℕ) × ((i : ℕ) → from (back i) ≡ i)
            × ((i : ℕ) → back (from i) ≡ i)
            × ((i : ℕ)
                → i < c.entries
                → (from i < c.entries)
                  × ((j : ℕ)
                      → j < c.entry_size
                      → body (i * c.entry_size + j) ≡ blinded_entry (from i) j))
            × IsAscending c 0 c.entries body
      unfolding generate_random_db blind_db
      generate_random_db-IsAscending fresh h entries_fit = (
        s.entries.from,
        s.entries.back,
        s.entries.from_back,
        s.entries.back_from,
        λ i l.
            let (a, b) = s.entries.inside i (omega arith) l in
            (
              b,
              λ j p.
                  written i j l p
                  ∙ s.entries.moved i j p
                  ∙ blind_from-at c.entries 0 (s.entries.from i) j fresh (omega arith) (omega arith)
                      (omega arith) p,
            ),
        λ a b p q l. omega (arith, same_key a (omega arith), same_key b l, s.ascending a b p q l),
      )
        where
          blinded : Buffer
          blinded = blind_db c curve size unblinded generator secret fresh

          s : IsSorting c 0 c.entries blinded (quicksort c blinded 0 c.entries)
          s =
              quicksort-IsSorting c c.entries few blinded 0 c.entries (omega arith) entries_fit
                (blind_from-IsBytes c.entries 0 fresh h)

          body : Buffer
          body =
              advance (generate_random_db c curve size unblinded generator secret fresh).file.body
                (curve.fe_size + curve.fe_size)

          front : Buffer
          front =
              copy (copy fresh 0 (curve.export_to_bytes generator) curve.fe_size) curve.fe_size
                (curve.export_to_bytes secret) curve.fe_size

          whole : db_size c ≡ c.entries * c.entry_size
          whole = mod-eq_of_lt (omega arith)

          written :
              (i j : ℕ)
              → i < c.entries
              → j < c.entry_size
              → body (i * c.entry_size + j) ≡ quicksort c blinded 0 c.entries (i * c.entry_size + j)
          written i j l p =
              copy-inside front (quicksort c blinded 0 c.entries) (curve.fe_size + curve.fe_size)
                (db_size c) _ (i * c.entry_size + j) refl
                (omega (arith, slot_before i c.entries c.entry_size j l p, whole))

          same_key :
              (i : ℕ) → i < c.entries → key c body i ≡ key c (quicksort c blinded 0 c.entries) i
          same_key i l =
              number-ext c.entry_size (advance body (i * c.entry_size))
                (advance (quicksort c blinded 0 c.entries) (i * c.entry_size))
                (λ j p. written i j l p)
