-- ===== src/Entries/Prefix/Count.antt =====
-- What `count_0bits` counts.
use cip_pir.Base.{
  ℕ, zero, suc, ◌+◌, ◌-◌, ◌*◌, ◌/◌, ◌^◌, ◌≤◌, ◌<◌, ◌≡◌, arith, refl, ap, sym, ◌∙◌, u64, ℕ_discrete,
  if◌then◌else◌, ◌==◌, false,
}
use mathlib.Core.Path.{subst}
use native.Mathlib.Nat.{pow-suc, mul_assoc}
use cip_pir.Base.Memory.{Buffer, IsBytes}
use cip_pir.Entries.Number.{number}
use cip_pir.Entries.Prefix.{shift_out, count_from, count_0bits}

-- `digits` is the number of binary digits of `n`.
pub record IsDigits (digits n : ℕ) : Type 0 where
  pub holds : n < 2 ^ digits
  pub least : 1 ≤ n → 2 ^ digits ≤ 2 * n
  pub none_left : n ≡ 0 → digits ≡ 0

twice : (d : ℕ) → 2 ^ (d + 1) ≡ 2 ^ d * 2
twice d = (let e : d + 1 ≡ suc d = omega arith in ap (λ k. 2 ^ k) e) ∙ pow-suc 2 d

-- The powers for `k` more digits.
pub shifted_power : (k d : ℕ) → 2 ^ (d + k) ≡ 2 ^ d * 2 ^ k
shifted_power zero d = (let e : d + 0 ≡ d = omega arith in ap (λ k. 2 ^ k) e) ∙ omega arith
shifted_power (suc k) d =
    let e : d + suc k ≡ suc (d + k) = omega arith in
    ap (λ t. 2 ^ t) e
    ∙ pow-suc 2 (d + k)
    ∙ ap (λ t. t * 2) (shifted_power k d)
    ∙ mul_assoc (2 ^ d) (2 ^ k) 2
    ∙ ap (λ t. 2 ^ d * t) (sym (pow-suc 2 k))

IsDigits-suc : (d n : ℕ) → 1 ≤ n → IsDigits d (n / 2) → IsDigits (d + 1) n
IsDigits-suc d n h i = record {
  holds = omega (arith, i.holds, twice d);
  least = λ p. elim (ℕ_discrete (n / 2) 0) [
    | yes e ↦ (let z : 2 ^ d ≡ 2 ^ 0 = ap (λ k. 2 ^ k) (i.none_left e) in omega (arith, z, twice d))
    | no e ↦ omega (arith, i.least (omega arith), twice d)
  ];
  none_left = λ p. absurd (omega arith);
}

IsDigits-byte : (d n x : ℕ) → 1 ≤ n → x < 256 → IsDigits d n → IsDigits (d + 8) (n * 256 + x)
IsDigits-byte d n x h l i =
    let more : 2 ^ (d + 8) ≡ 2 ^ d * 256 = shifted_power 8 d in
    record {
      holds = omega (arith, i.holds, more);
      least = λ p. omega (arith, i.least h, more);
      none_left = λ p. absurd (omega arith);
    }

not_zero : (n : ℕ) → ¬ (n ≡ 0) → (n == 0) ≡ false
not_zero n h = ground arith

shift_out_lem :
    (fuel val length : ℕ)
    → val < 2 ^ fuel
    → fuel ≤ length
    → length < 2 ^ 64
    → (d : ℕ) × (shift_out fuel val length + d ≡ length) × IsDigits d val
unfolding shift_out
shift_out_lem zero val length h l w =
    (0, omega arith, record { holds = h; least = λ p. absurd (omega arith); none_left = λ e. refl })
shift_out_lem (suc fuel) val length h l w = elim (ℕ_discrete val 0) [
  | yes e ↦ (
    0,
    ground arith,
    record { holds = omega arith; least = λ p. absurd (omega arith); none_left = λ p. refl },
  )
  | no n ↦
      let (d, e, i) =
        shift_out_lem fuel (val / 2) (length - 1) (omega (arith, pow-suc 2 fuel)) (omega arith)
          (omega arith) in
      (d + 1, shifted n d e, IsDigits-suc d val (omega arith) i)
]
  where
    shifted :
        ¬ (val ≡ 0)
        → (d : ℕ) → shift_out fuel (val / 2) (length - 1) + d ≡ length - 1
        → shift_out (suc fuel) val length + (d + 1) ≡ length
    shifted n d e =
        let less : u64 (length + 2 ^ 64 - 1) ≡ length - 1 = omega arith in
        ap
          (λ b.
            (if b then length else shift_out fuel (val / 2) (u64 (length + 2 ^ 64 - 1))) + (d + 1))
          (not_zero val n)
        ∙ ap (λ t. shift_out fuel (val / 2) t + (d + 1)) less
        ∙ omega arith

module _ (db : Buffer) (bytes : IsBytes db) where
  further_bytes :
      (left k d : ℕ)
      → 1 ≤ number k db
      → IsDigits d (number k db)
      → IsDigits (d + left * 8) (number (k + left) db)
  unfolding number
  further_bytes zero k d h i =
      let a : d ≡ d + 0 * 8 = omega arith in
      let b : k ≡ k + 0 = omega arith in
      subst (λ t. IsDigits t (number (k + 0) db)) a (subst (λ t. IsDigits d (number t db)) b i)
  further_bytes (suc left) k d h i =
      let a : d + 8 + left * 8 ≡ d + suc left * 8 = omega arith in
      let b : suc k + left ≡ k + suc left = omega arith in
      subst (λ t. IsDigits t (number (k + suc left) db)) a
        (subst (λ t. IsDigits (d + 8 + left * 8) (number t db)) b
          (further_bytes left (suc k) (d + 8) (omega arith)
            (IsDigits-byte d (number k db) (db k) h (bytes k) i)))

  count_from_lem :
      (left i length : ℕ)
      → number i db ≡ 0
      → length ≡ i * 8
      → (i + left) * 8 < 2 ^ 64
      → (d : ℕ) × (count_from left i db length + d ≡ (i + left) * 8)
        × IsDigits d (number (i + left) db)
  unfolding count_from number
  count_from_lem zero i length z e w = (
    0,
    omega arith,
    subst (λ t. IsDigits 0 t) (sym (ap (λ t. number t db) here ∙ z))
        (record { holds = omega arith; least = λ p. absurd (omega arith); none_left = λ p. refl }),
  )
    where
      here : i + 0 ≡ i
      here = omega arith
  count_from_lem (suc left) i length z e w = elim (ℕ_discrete (db i) 0) [
    | yes p ↦
        let place : suc i + left ≡ i + suc left = omega arith in
        let longer : u64 (length + 8) ≡ suc i * 8 = omega arith in
        let none : number (suc i) db ≡ 0 = omega (arith, z, p) in
        let (d, f, g) = count_from_lem left (suc i) (u64 (length + 8)) none longer (omega arith) in
        (
          d,
          ap
                (λ v.
                  (if v == 0
                    then count_from left (i + 1) db (u64 (length + 8))
                    else shift_out 8 (db i) (u64 (length + 8)))
                  + d)
                p
              ∙ ap (λ t. count_from left t db (u64 (length + 8)) + d) (next i)
              ∙ f
              ∙ ap (λ t. t * 8) place,
          subst (λ t. IsDigits d (number t db)) place g,
        )
    | no n ↦
        let place : suc i + left ≡ i + suc left = omega arith in
        let longer : u64 (length + 8) ≡ suc i * 8 = omega arith in
        let (d, f, g) =
          shift_out_lem 8 (db i) (u64 (length + 8)) (bytes i) (omega (arith, longer))
            (omega (arith, longer)) in
        let here : db i ≡ number (suc i) db = omega (arith, z) in
        (
          d + left * 8,
          ap
                (λ b.
                  (if b
                    then count_from left (i + 1) db (u64 (length + 8))
                    else shift_out 8 (db i) (u64 (length + 8)))
                  + (d + left * 8))
                (not_zero (db i) n)
              ∙ omega (arith, f, longer),
          subst (λ t. IsDigits (d + left * 8) (number t db)) place
              (further_bytes left (suc i) d (omega (arith, here)) (subst (IsDigits d) here g)),
        )
  ]
    where
      next : (k : ℕ) → k + 1 ≡ suc k
      next k = omega arith

  -- For bytes, of which there are fewer than 2^61: `count_0bits` and the number of binary digits of
  -- the number that the bytes stand for, the highest first, make eight for each byte.
  pub count_0bits-IsDigits :
      (n : ℕ) → n * 8 < 2 ^ 64 → (d : ℕ) × (count_0bits db n + d ≡ n * 8) × IsDigits d (number n db)
  unfolding count_0bits number
  count_0bits-IsDigits n h =
      let e : 0 + n ≡ n = omega arith in
      let (d, f, g) = count_from_lem n 0 0 refl refl (omega arith) in
      (d, f ∙ ap (λ t. t * 8) e, subst (λ t. IsDigits d (number t db)) e g)
