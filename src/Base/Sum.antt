-- ===== src/Base/Sum.antt =====
-- Sums over `t < n`, by `+` and by `^`.
use Prim.Native.Nat.{ℕ, zero, suc, ◌+◌, ◌-◌, ◌≤◌, ◌<◌, bit_xor}
use mathlib.Core.Path.{◌≡◌, refl, sym, ap, ap₂, ◌∙◌}
use mathlib.Core.Logic.{◌≢◌, ◌⊎◌, inl, inr}
use native.Mathlib.Nat.{add-zero}
use native.Mathlib.Decide.{ℕ_discrete}
use native.Mathlib.Omega.{arith}
use cip_pir.Base.Xor.{xor_assoc, xor_interchange, bit_xor-zero, zero-bit_xor, byte-xor-lt}

pub sum : ℕ → (ℕ → ℕ) → ℕ
sum zero f = 0
sum (suc n) f = sum n f + f n

pub sum-zero : (f : ℕ → ℕ) → sum 0 f ≡ 0
unfolding sum
sum-zero f = refl

pub sum-suc : (n : ℕ) (f : ℕ → ℕ) → sum (suc n) f ≡ sum n f + f n
unfolding sum
sum-suc n f = refl

pub sum-ext : (n : ℕ) (f g : ℕ → ℕ) → ((t : ℕ) → t < n → f t ≡ g t) → sum n f ≡ sum n g
unfolding sum
sum-ext zero f g h = refl
sum-ext (suc n) f g h = ap₂ ◌+◌ (sum-ext n f g (λ t p. h t (omega arith))) (h n (omega arith))

pub sum-add : (n m : ℕ) (f : ℕ → ℕ) → sum (n + m) f ≡ sum n f + sum m (λ t. f (n + t))
unfolding sum
sum-add n zero f = ap (λ k. sum k f) (add-zero n) ∙ sym (add-zero (sum n f))
sum-add n (suc m) f =
    let e : n + suc m ≡ suc (n + m) = omega arith in
    ap (λ k. sum k f) e ∙ omega (arith, sum-add n m f)

-- A sum is the first term and the others.
pub sum-head : (n : ℕ) (f : ℕ → ℕ) → sum (suc n) f ≡ f 0 + sum n (λ t. f (suc t))
unfolding sum
sum-head zero f = omega arith
sum-head (suc n) f = omega (arith, sum-head n f)

pub xsum : ℕ → (ℕ → ℕ) → ℕ
xsum zero f = 0
xsum (suc n) f = bit_xor (xsum n f) (f n)

pub xsum-zero : (f : ℕ → ℕ) → xsum 0 f ≡ 0
unfolding xsum
xsum-zero f = refl

pub xsum-suc : (n : ℕ) (f : ℕ → ℕ) → xsum (suc n) f ≡ bit_xor (xsum n f) (f n)
unfolding xsum
xsum-suc n f = refl

pub xsum-ext : (n : ℕ) (f g : ℕ → ℕ) → ((t : ℕ) → t < n → f t ≡ g t) → xsum n f ≡ xsum n g
unfolding xsum
xsum-ext zero f g h = refl
xsum-ext (suc n) f g h = ap₂ bit_xor (xsum-ext n f g (λ t p. h t (omega arith))) (h n (omega arith))

pub xsum-xor :
    (n : ℕ) (f g : ℕ → ℕ) → xsum n (λ t. bit_xor (f t) (g t)) ≡ bit_xor (xsum n f) (xsum n g)
unfolding xsum
xsum-xor zero f g = sym (zero-bit_xor 0)
xsum-xor (suc n) f g =
    ap (λ s. bit_xor s (bit_xor (f n) (g n))) (xsum-xor n f g)
    ∙ xor_interchange (xsum n f) (xsum n g) (f n) (g n)

pub xsum-add : (n m : ℕ) (f : ℕ → ℕ) → xsum (n + m) f ≡ bit_xor (xsum n f) (xsum m (λ t. f (n + t)))
unfolding xsum
xsum-add n zero f = ap (λ k. xsum k f) (add-zero n) ∙ sym (bit_xor-zero (xsum n f))
xsum-add n (suc m) f =
    let e : n + suc m ≡ suc (n + m) = omega arith in
    ap (λ k. xsum k f) e
    ∙ ap (λ s. bit_xor s (f (n + m))) (xsum-add n m f)
    ∙ xor_assoc (xsum n f) (xsum m (λ t. f (n + t))) (f (n + m))

-- The first term and the others.
pub xsum-head : (n : ℕ) (f : ℕ → ℕ) → xsum (suc n) f ≡ bit_xor (f 0) (xsum n (λ t. f (suc t)))
unfolding xsum
xsum-head zero f = zero-bit_xor (f 0) ∙ sym (bit_xor-zero (f 0))
xsum-head (suc n) f =
    ap (λ s. bit_xor s (f (suc n))) (xsum-head n f)
    ∙ xor_assoc (f 0) (xsum n (λ t. f (suc t))) (f (suc n))

pub xsum_zeros : (n : ℕ) (f : ℕ → ℕ) → ((t : ℕ) → t < n → f t ≡ 0) → xsum n f ≡ 0
unfolding xsum
xsum_zeros zero f h = refl
xsum_zeros (suc n) f h =
    ap₂ bit_xor (xsum_zeros n f (λ t p. h t (omega arith))) (h n (omega arith)) ∙ zero-bit_xor 0

-- Only one term counts.
pub xsum_single :
    (n i : ℕ) (f : ℕ → ℕ) → i < n → ((t : ℕ) → t < n → t ≢ i → f t ≡ 0) → xsum n f ≡ f i
unfolding xsum
xsum_single zero i f p h = absurd (omega arith)
xsum_single (suc n) i f p h = elim (ℕ_discrete i n) [
  | yes e ↦
      ap₂ bit_xor (xsum_zeros n f (λ t q. h t (omega arith) (omega arith))) (ap f (sym e))
      ∙ zero-bit_xor (f i)
  | no ne ↦
      ap₂ bit_xor (xsum_single n i f (omega arith) (λ t q. h t (omega arith)))
        (h n (omega arith) (omega arith))
      ∙ bit_xor-zero (f i)
]

-- Only the terms of a window count.
pub xsum_window :
    (n lo m : ℕ) (f : ℕ → ℕ)
    → lo + m ≤ n
    → ((t : ℕ) → (t < lo) ⊎ (lo + m ≤ t) → f t ≡ 0)
    → xsum n f ≡ xsum m (λ t. f (lo + t))
xsum_window n lo m f fits outside =
    ap (λ k. xsum k f) all
    ∙ xsum-add (lo + m) (n - (lo + m)) f
    ∙ ap₂ bit_xor
        (xsum-add lo m f
          ∙ ap (λ s. bit_xor s (xsum m (λ t. f (lo + t))))
              (xsum_zeros lo f (λ t h. outside t (inl h)))
          ∙ zero-bit_xor _)
        (xsum_zeros (n - (lo + m)) _ (λ t h. outside (lo + m + t) (inr (omega arith))))
    ∙ bit_xor-zero _
  where
    all : n ≡ lo + m + (n - (lo + m))
    all = omega arith

pub xsum_bytes : (n : ℕ) (f : ℕ → ℕ) → ((t : ℕ) → t < n → f t < 256) → xsum n f < 256
unfolding xsum
xsum_bytes zero f h = omega arith
xsum_bytes (suc n) f h =
    byte-xor-lt (xsum n f) (f n) (xsum_bytes n f (λ t p. h t (omega arith))) (h n (omega arith))
