-- ===== src/Entries/Subtract.antt =====
-- What `subtractBytes` computes.
use cip_pir.Base.{
  ℕ, zero, suc, ◌+◌, ◌-◌, ◌≤◌, ◌<◌, ◌≡◌, arith, refl, ap, ◌∙◌, if◌then◌else◌, ltb, u8, false,
}
use cip_pir.Base.Memory.{Buffer, write}
use cip_pir.Entries.Number.{number}
use cip_pir.Entries.{subtract_from, subtract_bytes}

write_other : (z : Buffer) (n i v : ℕ) → n < i → write z n v i ≡ z i
write_other z n i v h = ground arith

write_here : (z : Buffer) (n v : ℕ) → write z n v n ≡ v
write_here z n v = ground arith

subtract_from-above : (n : ℕ) (x y z : Buffer) (b i : ℕ) → n ≤ i → subtract_from n x y z b i ≡ z i
unfolding subtract_from
subtract_from-above zero x y z b i h = refl
subtract_from-above (suc n) x y z b i h =
    subtract_from-above n x y _ _ i (omega arith) ∙ write_other z n i _ (omega arith)

not_less : (a b : ℕ) → b ≤ a → ltb a (b + 0) ≡ false
not_less a b h = ground arith

-- The byte that the first round writes stays.
top_byte : (n : ℕ) (x y z : Buffer) → y n ≤ x n → subtract_from (suc n) x y z 0 n ≡ x n - y n
unfolding subtract_from
top_byte n x y z h =
    subtract_from-above n x y _ _ n (omega arith)
    ∙ write_here z n _
    ∙ ground (arith, not_less (x n) (y n) h)

subtract_from-number :
    (n : ℕ) (x y z : Buffer)
    → ((i : ℕ) → i < n → y i ≤ x i)
    → number n (subtract_from n x y z 0) + number n y ≡ number n x
unfolding subtract_from number
subtract_from-number zero x y z h = refl
subtract_from-number (suc n) x y z h =
    let less = not_less (x n) (y n) (h n (omega arith)) in
    omega (
      arith,
      ap
          (λ b. number n (
            subtract_from n x y
              (write z n (if b then u8 (x n + 256 + 16 - (y n + 0)) else x n - (y n + 0)))
              (if b then 1 else 0)))
          less,
      subtract_from-number n x y (write z n (x n - (y n + 0))) (λ i l. h i (omega arith)),
      top_byte n x y z (h n (omega arith)),
    )

-- If no byte of `y` is larger than that of `x` at its place, the result is the difference.
pub subtract_bytes-number :
    (n : ℕ) (x y z : Buffer)
    → ((i : ℕ) → i < n → y i ≤ x i)
    → number n (subtract_bytes x y z n) + number n y ≡ number n x
unfolding subtract_bytes
subtract_bytes-number n x y z h = subtract_from-number n x y z h
