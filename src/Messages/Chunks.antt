-- ===== src/Messages/Chunks.antt =====
-- The writes of `sendChunks`.
use mathlib.Core.Path.{subst}
use native.Mathlib.Nat.{mod-eq_of_lt}
use cip_pir.Base.{
  ℕ, zero, suc, ◌+◌, ◌-◌, ◌≤◌, ◌<◌, ◌≡◌, ◌^◌, List, [], ◌∷◌, arith, refl, sym, u32, if◌then◌else◌,
  ltb, leb, dec_lt, false,
}
use cip_pir.Messages.{chunks_from, send_chunks, pipeline_chunk_size}

-- The writes send the bytes from `place` up to `end`, one after the other, each of them some bytes
-- and no more than a chunk.
pub IsSent : ℕ → ℕ → List (ℕ × ℕ) → Type 0
IsSent place end [] = place ≡ end
IsSent place end ((at, n) ∷ writes) =
    (at ≡ place) × (1 ≤ n) × (n ≤ pipeline_chunk_size) × IsSent (place + n) end writes

abbrev next_size : ℕ → ℕ → ℕ → ℕ
next_size bytes place size = if ltb bytes (u32 (place + size)) then u32 (bytes - place) else size

next_size-bounds :
    (bytes place size : ℕ)
    → bytes + pipeline_chunk_size < 2 ^ 32
    → place < bytes
    → 1 ≤ size
    → size ≤ pipeline_chunk_size
    → (1 ≤ next_size bytes place size)
      × (next_size bytes place size ≤ pipeline_chunk_size)
      × (place + next_size bytes place size ≤ bytes)
next_size-bounds bytes place size w h l m = (ground arith, ground arith, ground arith)

not_there : (sockets id : ℕ) → id < sockets → leb sockets id ≡ false
not_there sockets id h = ground arith

chunks_from-IsSent :
    (fuel bytes place size : ℕ)
    → bytes + pipeline_chunk_size < 2 ^ 32
    → place ≤ bytes
    → bytes ≤ place + fuel
    → 1 ≤ size
    → size ≤ pipeline_chunk_size
    → IsSent place bytes (chunks_from fuel bytes place size)
unfolding chunks_from IsSent
chunks_from-IsSent zero bytes place size w p q l m = omega arith
chunks_from-IsSent (suc fuel) bytes place size w p q l m =
    go (dec_lt place bytes)
      λ place' size' p' q' l' m'. chunks_from-IsSent fuel bytes place' size' w p' q' l' m'
  where
    go :
        (d : Dec (place < bytes))
        → ((place' size' : ℕ)
            → place' ≤ bytes
            → bytes ≤ place' + fuel
            → 1 ≤ size'
            → size' ≤ pipeline_chunk_size
            → IsSent place' bytes (chunks_from fuel bytes place' size'))
        → IsSent place bytes (elim d as (λ x. List (ℕ × ℕ)) [
          | yes _ ↦
              (place, next_size bytes place size)
              ∷ chunks_from fuel bytes
                  (u32 (place + next_size bytes place size))
                  (next_size bytes place size)
          | no _ ↦ []
        ])
    go (no n) rest = omega (arith, n)
    go (yes h) rest =
        let (low, high, inside) = next_size-bounds bytes place size w h l m in
        let e : u32 (place + next_size bytes place size) ≡ place + next_size bytes place size =
          mod-eq_of_lt (omega (arith, inside)) in
        (
          refl,
          low,
          high,
          subst
              (λ y.
                IsSent (place + next_size bytes place size) bytes
                  (chunks_from fuel bytes y (next_size bytes place size)))
              (sym e)
              (rest (place + next_size bytes place size) (next_size bytes place size) inside
                (omega (arith, low)) low high),
        )

-- For a server that is there, `sendChunks` sends all bytes, in order and in chunks.
pub send_chunks-IsSent :
    (sockets id bytes : ℕ)
    → id < sockets
    → bytes + pipeline_chunk_size < 2 ^ 32
    → IsSent 0 bytes (send_chunks sockets id bytes)
unfolding send_chunks
send_chunks-IsSent sockets id bytes h w =
    subst (λ b. IsSent 0 bytes (if b then [] else chunks_from bytes bytes 0 pipeline_chunk_size))
      (sym (not_there sockets id h))
      (chunks_from-IsSent bytes bytes 0 pipeline_chunk_size w (omega arith) (omega arith)
        (omega arith) (omega arith))
