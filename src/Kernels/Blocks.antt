-- ===== src/Kernels/Blocks.antt =====
-- What the byte and block kernels compute, and that the vector code computes the same.
use cip_pir.Base.{ℕ, zero, suc, ◌+◌, ◌-◌, ◌*◌, ◌/◌, ◌≤◌, ◌≡◌, ap, ◌∙◌, fun_ext}
use native.Mathlib.Nat.{div-mul-le_self}
use cip_pir.Base.{bit_xor, arith, if◌then◌else◌, ltb, leb, Bool-cases, inl, inr, ◌&&◌}
use cip_pir.Base.Memory.{Buffer, advance, write, copy}
use cip_pir.Base.Xor.{xor_comm}
use cip_pir.Config.{Config}
use cip_pir.Kernels.{
  xor_bytes_from, xor_bytes, xor_block_from, VectorUnit, xor_vectors_from, xor_full_blocks,
  xor_full_blocks_vector,
}

-- `dest` with the bytes from `lo` up to `hi` exclusive or-ed.
abbrev pub xor_range : ℕ → ℕ → Buffer → Buffer → Buffer
xor_range lo hi dest src j = if leb lo j && ltb j hi then bit_xor (dest j) (src j) else dest j

xor_bytes_from_lem :
    (left i : ℕ) (dest src : Buffer) (j : ℕ)
    → xor_bytes_from left i dest src j ≡ xor_range i (i + left) dest src j
unfolding xor_bytes_from
xor_bytes_from_lem zero i dest src j = ground arith
xor_bytes_from_lem (suc left) i dest src j =
    ground (arith, xor_bytes_from_lem left (i + 1) (write dest i (bit_xor (dest i) (src i))) src j)

xor_block_from_lem :
    (left i : ℕ) (dest src : Buffer) (j : ℕ)
    → xor_block_from left i dest src j ≡ xor_range i (i + left) dest src j
unfolding xor_block_from
xor_block_from_lem zero i dest src j = ground arith
xor_block_from_lem (suc left) i dest src j = ground (
  arith,
  xor_block_from_lem left (i + 1) (write dest i (bit_xor (src i) (dest i))) src j,
  xor_comm (src i) (dest i),
)

-- `xorBytes` changes the first `bytes` bytes of its target, each by its own source byte, and no
-- other.
pub xor_bytes_lem :
    (dest src : Buffer) (bytes j : ℕ)
    → xor_bytes dest src bytes j ≡ (if ltb j bytes then bit_xor (dest j) (src j) else dest j)
unfolding xor_bytes
xor_bytes_lem dest src bytes j = ground (arith, xor_bytes_from_lem bytes 0 dest src j)

pub xor_full_blocks_lem :
    (c : Config) (dest src : Buffer) (j : ℕ)
    → xor_full_blocks c dest src j
      ≡ (if ltb j c.block_size then bit_xor (dest j) (src j) else dest j)
unfolding xor_full_blocks
xor_full_blocks_lem c dest src j = ground (arith, xor_block_from_lem c.block_size 0 dest src j)

module _ (u : VectorUnit) where
  -- One register is the bytes from `lo` to `lo + width`.
  store_register :
      (dest src : Buffer) (lo j : ℕ)
      → copy dest lo (u.xor_si (advance dest lo) (advance src lo)) u.width j
        ≡ xor_range lo (lo + u.width) dest src j
  store_register dest src lo j = elim (Bool-cases (leb lo j && ltb j (lo + u.width))) [
    | inl inside ↦
        let back : lo + (j - lo) ≡ j = ground arith in
        rw (inside) (
          u.xor_si_lane (advance dest lo) (advance src lo) (j - lo) (ground arith)
          ∙ ap (λ k. bit_xor (dest k) (src k)) back)
    | inr outside ↦ rw (outside)
  ]

  xor_vectors_from_lem :
      (left i : ℕ) (dest src : Buffer) (j lo hi : ℕ)
      → lo ≡ i * u.width
      → hi ≡ lo + left * u.width
      → xor_vectors_from u left i dest src j ≡ xor_range lo hi dest src j
  unfolding xor_vectors_from
  xor_vectors_from_lem zero i dest src j lo hi p q = ground arith
  xor_vectors_from_lem (suc left) i dest src j lo hi p q =
      let stored =
        copy dest (i * u.width) (u.xor_si (advance dest (i * u.width)) (advance src (i * u.width)))
          u.width in
      ground (
        arith,
        xor_vectors_from_lem left (i + 1) stored src j (lo + u.width) hi (omega arith)
            (omega arith),
        store_register dest src (i * u.width) j,
      )

-- The vector code of `xorFullBlocks` computes what its plain loop computes, for every block size
-- and register width.
pub vector-eq-plain :
    (c : Config) (u : VectorUnit) (dest src : Buffer)
    → xor_full_blocks_vector c u dest src ≡ xor_full_blocks c dest src
unfolding xor_full_blocks_vector
vector-eq-plain c u dest src = fun_ext λ j.
    let registers = c.block_size / u.width in
    let bulk = xor_vectors_from u registers 0 dest src in
    let fit : registers * u.width ≤ c.block_size = div-mul-le_self c.block_size u.width in
    ground (
      arith,
      xor_full_blocks_lem c dest src j,
      xor_bytes_from_lem (c.block_size - registers * u.width) (registers * u.width) bulk src j,
      xor_vectors_from_lem u registers 0 dest src j 0 (registers * u.width) (omega arith)
          (omega arith),
    )
