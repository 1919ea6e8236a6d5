-- ===== src/Entries/Number.antt =====
-- The number that bytes stand for, the highest first, and the order of `memcmp`.
use Prim.Native.Nat.{compare, Ordering}
use mathlib.Core.Path.{subst}
use cip_pir.Base.{
  ℕ, zero, suc, ◌+◌, ◌*◌, ◌<◌, ◌≡◌, ◌↔◌, arith, refl, ap, ap₂, sym, ◌∙◌, ltb, ℕ_discrete,
}
use cip_pir.Base.Memory.{Buffer, advance, IsBytes}
use cip_pir.Entries.{memcmp, is_greater}

unfoldable pub number : ℕ → Buffer → ℕ
number zero x = 0
number (suc n) x = number n x * 256 + x n

pub number-ext : (n : ℕ) (x y : Buffer) → ((j : ℕ) → j < n → x j ≡ y j) → number n x ≡ number n y
unfolding number
number-ext zero x y h = refl
number-ext (suc n) x y h =
    ap₂ (λ a b. a * 256 + b) (number-ext n x y (λ j l. h j (omega arith))) (h n (omega arith))

-- What `memcmp` says of a further byte at the end.
abbrev then_compare : Ordering → ℕ → ℕ → Ordering
then_compare Ordering.lt a b = Ordering.lt
then_compare Ordering.eq a b = compare a b
then_compare Ordering.gt a b = Ordering.gt

memcmp-suc : (n : ℕ) (x y : Buffer) → memcmp x y (suc n) ≡ then_compare (memcmp x y n) (x n) (y n)
unfolding memcmp
memcmp-suc zero x y =
    elim (compare (x 0) (y 0))
      as (λ o.
        (elim o as (λ z. Ordering) [
          | Ordering.lt ↦ Ordering.lt
          | Ordering.eq ↦ Ordering.eq
          | Ordering.gt ↦ Ordering.gt
        ])
        ≡ o) [ Ordering.lt ↦ refl | Ordering.eq ↦ refl | Ordering.gt ↦ refl ]
memcmp-suc (suc n) x y =
    elim (compare (x 0) (y 0))
      as (λ o.
        (elim o as (λ z. Ordering) [
          | Ordering.lt ↦ Ordering.lt
          | Ordering.eq ↦ memcmp (advance x 1) (advance y 1) (suc n)
          | Ordering.gt ↦ Ordering.gt
        ])
        ≡ then_compare
            (elim o as (λ z. Ordering) [
              | Ordering.lt ↦ Ordering.lt
              | Ordering.eq ↦ memcmp (advance x 1) (advance y 1) n
              | Ordering.gt ↦ Ordering.gt
            ])
            (x (suc n)) (y (suc n))) [
              | Ordering.lt ↦ refl
              | Ordering.eq ↦
                  memcmp-suc n (advance x 1) (advance y 1)
                  ∙ ap₂ (then_compare (memcmp (advance x 1) (advance y 1) n)) (ap x (omega arith))
                      (ap y (omega arith))
              | Ordering.gt ↦ refl
            ]

then_compare-number :
    (a b x y : ℕ)
    → x < 256
    → y < 256
    → then_compare (compare a b) x y ≡ compare (a * 256 + x) (b * 256 + y)
then_compare-number a b x y h l = ground arith

-- `memcmp` compares the numbers.
pub memcmp-number :
    (n : ℕ) (x y : Buffer)
    → IsBytes x
    → IsBytes y
    → memcmp x y n ≡ compare (number n x) (number n y)
unfolding memcmp number
memcmp-number zero x y h l = refl
memcmp-number (suc n) x y h l =
    memcmp-suc n x y
    ∙ ap (λ o. then_compare o (x n) (y n)) (memcmp-number n x y h l)
    ∙ then_compare-number (number n x) (number n y) (x n) (y n) (h n) (l n)

pub is_greater-compare : (a b : ℕ) → is_greater (compare a b) ≡ ltb b a
is_greater-compare a b = ground arith

-- `memcmp` of `n` bytes depends on them only.
pub memcmp-ext :
    (n : ℕ) (x y y' : Buffer) → ((j : ℕ) → j < n → y j ≡ y' j) → memcmp x y n ≡ memcmp x y' n
unfolding memcmp
memcmp-ext zero x y y' h = refl
memcmp-ext (suc n) x y y' h =
    ap
      (λ v. elim (compare (x 0) v) as (λ z. Ordering) [
        | Ordering.lt ↦ Ordering.lt
        | Ordering.eq ↦ memcmp (advance x 1) (advance y 1) n
        | Ordering.gt ↦ Ordering.gt
      ])
      (h 0 (omega arith))
    ∙ ap
        (λ o. elim (compare (x 0) (y' 0)) as (λ z. Ordering) [
          | Ordering.lt ↦ Ordering.lt
          | Ordering.eq ↦ o
          | Ordering.gt ↦ Ordering.gt
        ])
        (memcmp-ext n (advance x 1) (advance y 1) (advance y' 1)
          (λ j l. ap y (omega arith) ∙ h (suc j) (omega arith) ∙ ap y' (omega arith)))

-- Numbers that differ in their first `n` bytes keep their order with `k` bytes more.
pub number-prefix :
    (k n : ℕ) (x y : Buffer)
    → IsBytes x
    → IsBytes y
    → number n x < number n y
    → number (n + k) x < number (n + k) y
unfolding number
number-prefix zero n x y h l p =
    let e : n ≡ n + 0 = omega arith in subst (λ m. number m x < number m y) e p
number-prefix (suc k) n x y h l p =
    let e : suc n + k ≡ n + suc k = omega arith in
    subst (λ m. number m x < number m y) e
      (number-prefix k (suc n) x y h l (omega (arith, h n, l n)))

-- Equal numbers have equal bytes.
pub number-inj :
    (n j : ℕ) (x y : Buffer) → IsBytes x → IsBytes y → number n x ≡ number n y → j < n → x j ≡ y j
unfolding number
number-inj zero j x y h l e p = absurd (omega arith)
number-inj (suc n) j x y h l e p = elim (ℕ_discrete j n) [
  | yes z ↦ ap x z ∙ omega (arith, h n, l n) ∙ ap y (sym z)
  | no z ↦ number-inj n j x y h l (omega (arith, h n, l n)) (omega (arith, z))
]

pub compare-eq : (a b : ℕ) → (compare a b ≡ Ordering.eq) ↔ (a ≡ b)
compare-eq a b = (λ h. ground arith, λ h. ground arith)

pub compare-lt : (a b : ℕ) → compare a b ≡ Ordering.lt → a < b
compare-lt a b h = ground arith
