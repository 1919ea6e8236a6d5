-- ===== src/Base/Memory.antt =====
-- Byte arrays behind a pointer: a buffer gives the byte at each offset from the pointer.
use Prim.Native.Nat.{◌≤◌, ℕ, ◌+◌, ◌<◌, ◌-◌}
use mathlib.Core.Path.{◌≡◌, ap, ◌∙◌}
use mathlib.Core.Logic.{◌⊎◌}
use native.Mathlib.Omega.{arith}
use mathlib.Core.Bool.{true, ◌&&◌}
use cip_pir.Base.Tests.{ltb, leb, ◌==◌, if◌then◌else◌}

abbrev pub Buffer : Type 0
Buffer = ℕ → ℕ

-- `buf + k`
abbrev pub advance : Buffer → ℕ → Buffer
advance buf k i = buf (k + i)

-- `buf[i] = v`
abbrev pub write : Buffer → ℕ → ℕ → Buffer
write buf i v j = if j == i then v else buf j

-- `memcpy(buf + k, src, n)`
abbrev pub copy : Buffer → ℕ → Buffer → ℕ → Buffer
copy buf k src n j = if leb k j && ltb j (k + n) then src (j - k) else buf j

-- `buf.fill(0)` and `calloc`
abbrev pub zeros : Buffer
zeros i = 0

-- Every cell is a byte.
abbrev pub IsBytes : Buffer → Type 0
IsBytes buf = (i : ℕ) → buf i < 256

le→leb : (a b : ℕ) → a ≤ b → leb a b ≡ true
le→leb a b h = ground arith

between : (k n i : ℕ) → k ≤ i → i < k + n → leb k i && ltb i (k + n) ≡ true
between k n i p q = ground arith

pub copy-inside : (buf src : Buffer) (k n i j : ℕ) → i ≡ k + j → j < n → copy buf k src n i ≡ src j
copy-inside buf src k n i j e l =
    ap (λ b. if b then src (i - k) else buf i) (between k n i (omega arith) (omega arith))
    ∙ ap src (omega arith)

pub copy-outside :
    (buf src : Buffer) (k n i : ℕ) → (i < k) ⊎ (k + n ≤ i) → copy buf k src n i ≡ buf i
copy-outside buf src k n i h = ground arith

-- A function that changes the bytes behind a pointer, called on `buf + k`.
abbrev pub through : Buffer → ℕ → (Buffer → Buffer) → Buffer
through buf k f j = if leb k j then f (advance buf k) (j - k) else buf j

pub through-here :
    (buf : Buffer) (k j : ℕ) (f : Buffer → Buffer) → through buf k f (k + j) ≡ f (advance buf k) j
through-here buf k j f =
    ap (λ b. if b then f (advance buf k) (k + j - k) else buf (k + j))
      (le→leb k (k + j) (omega arith))
    ∙ ap (f (advance buf k)) (omega arith)

pub through-before :
    (buf : Buffer) (k o : ℕ) (f : Buffer → Buffer) → o < k → through buf k f o ≡ buf o
through-before buf k o f h = ground arith

pub through-at :
    (buf : Buffer) (k o : ℕ) (f : Buffer → Buffer)
    → k ≤ o
    → through buf k f o ≡ f (advance buf k) (o - k)
through-at buf k o f h = ap (λ b. if b then f (advance buf k) (o - k) else buf o) (le→leb k o h)
