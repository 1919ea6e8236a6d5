-- ===== src/Entries/Prefix/Bits.antt =====
-- What `getPrefix` gives.
use Prim.Native.Nat.{bit_or}
use cip_pir.Base.{
  ℕ, zero, suc, ◌+◌, ◌-◌, ◌*◌, ◌/◌, ◌%◌, ◌^◌, ◌≤◌, ◌<◌, ◌≡◌, arith, refl, ap, ap₂, sym, ◌∙◌, u64,
  dec_lt,
}
use mathlib.Core.Path.{subst}
use native.Mathlib.Nat.{mod-eq_of_lt, pow-le-pow_right}
use cip_pir.Base.Digits.{bit_or-add}
use cip_pir.Base.Memory.{Buffer, IsBytes}
use cip_pir.Entries.Number.{number}
use cip_pir.Entries.Prefix.{prefix_part, prefix_from, get_prefix}
use cip_pir.Entries.Prefix.Count.{shifted_power}

-- The digits of a byte that is cut, put behind a number.
cut_byte :
    (l n e : ℕ)
    → 1 ≤ l
    → l < 8
    → e < 256
    → (e / 2 ^ (8 - l) % 2 ^ l < 2 ^ l)
      × (n * 2 ^ l + e / 2 ^ (8 - l) % 2 ^ l ≡ (n * 256 + e) / 2 ^ (8 - l))
cut_byte zero n e p q h = absurd (omega arith)
cut_byte (suc zero) n e p q h = omega arith
cut_byte (suc (suc zero)) n e p q h = omega arith
cut_byte (suc (suc (suc zero))) n e p q h = omega arith
cut_byte (suc (suc (suc (suc zero)))) n e p q h = omega arith
cut_byte (suc (suc (suc (suc (suc zero))))) n e p q h = omega arith
cut_byte (suc (suc (suc (suc (suc (suc zero)))))) n e p q h = omega arith
cut_byte (suc (suc (suc (suc (suc (suc (suc zero))))))) n e p q h = omega arith
cut_byte (suc (suc (suc (suc (suc (suc (suc (suc l)))))))) n e p q h = absurd (omega arith)

byte_times :
    (p n e : ℕ)
    → 1 ≤ p
    → e < 256
    → (e * p < p * 2 ^ 8) × (n * (p * 2 ^ 8) + e * p ≡ (n * 256 + e) * p)
byte_times p n e some_bit h = (grind arith, grind arith)

power_pos : (m : ℕ) → 1 ≤ 2 ^ m
power_pos m =
    let two : 0 < 2 = omega arith in let least : 0 ≤ m = omega arith in pow-le-pow_right two least

-- A whole byte, put behind a number, `m` digits before the end.
whole_byte :
    (m n e : ℕ)
    → e < 256
    → (e * 2 ^ m < 2 ^ (m + 8)) × (n * 2 ^ (m + 8) + e * 2 ^ m ≡ (n * 256 + e) * 2 ^ m)
whole_byte m n e h =
    let power = sym (shifted_power 8 m) in
    let (small, sum) = byte_times (2 ^ m) n e (power_pos m) h in
    (
      subst (λ t. e * 2 ^ m < t) power small,
      subst (λ t. n * t + e * 2 ^ m ≡ (n * 256 + e) * 2 ^ m) power sum,
    )

-- What is added for the last digits, and for a byte before them.
part_low : (l e : ℕ) → l < 8 → prefix_part l e ≡ e / 2 ^ (8 - l) % 2 ^ l
part_low l e h = ground arith

part_high : (l e : ℕ) → 8 ≤ l → prefix_part l e ≡ u64 (e * 2 ^ (l - 8))
part_high l e h = ground arith

module _ (entry : Buffer) (bytes : IsBytes entry) where
  prefix_from-zero : (fuel j prefix : ℕ) → prefix_from fuel entry 0 j prefix ≡ prefix
  unfolding prefix_from
  prefix_from-zero zero j prefix = refl
  prefix_from-zero (suc fuel) j prefix = refl

  prefix_from-suc :
      (fuel length j prefix : ℕ)
      → 1 ≤ length
      → prefix_from (suc fuel) entry length j prefix
        ≡ prefix_from fuel entry (length - 8) (j + 1) (bit_or prefix (prefix_part length (entry j)))
  unfolding prefix_from
  prefix_from-suc fuel length j prefix h = ground arith

  abbrev next_number : ℕ → ℕ
  next_number j = number j entry * 256 + entry j

  next_number_lem : (j n : ℕ) → n ≡ suc j → number n entry ≡ next_number j
  unfolding number
  next_number_lem j n e = ap (λ t. number t entry) e

  last_round :
      (fuel l j : ℕ)
      → 1 ≤ l
      → l < 8
      → prefix_from (suc fuel) entry l j (number j entry * 2 ^ l) ≡ next_number j / 2 ^ (8 - l)
  last_round fuel l j p q =
      let (small, sum) = cut_byte l (number j entry) (entry j) p q (bytes j) in
      prefix_from-suc fuel l j (number j entry * 2 ^ l) p
      ∙ ap
          (λ t.
            prefix_from fuel entry t (j + 1)
              (bit_or (number j entry * 2 ^ l) (prefix_part l (entry j))))
          (omega arith)
      ∙ prefix_from-zero fuel (j + 1) _
      ∙ ap (bit_or (number j entry * 2 ^ l)) (part_low l (entry j) q)
      ∙ bit_or-add l (number j entry) _ small
      ∙ sum

  whole_round :
      (fuel m j : ℕ)
      → m + 8 ≤ 64
      → prefix_from (suc fuel) entry (m + 8) j (number j entry * 2 ^ (m + 8))
        ≡ prefix_from fuel entry m (j + 1) (next_number j * 2 ^ m)
  whole_round fuel m j h =
      let (small, sum) = whole_byte m (number j entry) (entry j) (bytes j) in
      let eight : m + 8 - 8 ≡ m = omega arith in
      prefix_from-suc fuel (m + 8) j (number j entry * 2 ^ (m + 8)) (omega arith)
      ∙ ap
          (λ t.
            prefix_from fuel entry t (j + 1)
              (bit_or (number j entry * 2 ^ (m + 8)) (prefix_part (m + 8) (entry j))))
          eight
      ∙ ap (λ t. prefix_from fuel entry m (j + 1) (bit_or (number j entry * 2 ^ (m + 8)) t))
          (part_high (m + 8) (entry j) (omega arith)
            ∙ ap (λ t. u64 (entry j * 2 ^ t)) eight
            ∙ mod-eq_of_lt (in_word (entry j * 2 ^ m) small))
      ∙ ap (prefix_from fuel entry m (j + 1))
          (bit_or-add (m + 8) (number j entry) (entry j * 2 ^ m) small ∙ sum)
    where
      two : 0 < 2
      two = omega arith

      word : 2 ^ (m + 8) ≤ 2 ^ 64
      word = pow-le-pow_right two h

      in_word : (x : ℕ) → x < 2 ^ (m + 8) → x < 2 ^ 64
      in_word x l = omega (arith, word)

  abbrev cut_number : ℕ → ℕ → ℕ
  cut_number j length = number (j + length / 8 + 1) entry / 2 ^ (8 - length % 8)

  prefix_from-number :
      (fuel length j : ℕ)
      → length ≤ fuel
      → length ≤ 64
      → prefix_from fuel entry length j (number j entry * 2 ^ length) ≡ cut_number j length
  prefix_from-number fuel zero j enough fits =
      prefix_from-zero fuel j (number j entry * 1)
      ∙ omega (arith, next_number_lem j (j + 0 + 1) (omega arith), bytes j)
  prefix_from-number zero (suc l) j enough fits = absurd (omega arith)
  prefix_from-number (suc fuel) (suc l) j enough fits = elim (dec_lt (suc l) 8) [
    | yes h ↦
        last_round fuel (suc l) j (omega arith) h
        ∙ ap₂ (λ x y. x / 2 ^ y) (sym (next_number_lem j (j + suc l / 8 + 1) (omega arith)))
            (omega arith)
    | no h ↦
        (let e : suc l ≡ suc l - 8 + 8 = omega arith in
          let m = suc l - 8 in
          ap (λ t. prefix_from (suc fuel) entry t j (number j entry * 2 ^ t)) e
          ∙ whole_round fuel m j (omega arith)
          ∙ ap (λ t. prefix_from fuel entry m (j + 1) (t * 2 ^ m))
              (sym (next_number_lem j (j + 1) (omega arith)))
          ∙ prefix_from-number fuel m (j + 1) (omega arith) (omega arith)
          ∙ ap₂ (λ x y. number x entry / 2 ^ y) (omega arith) (omega arith))
  ]

  -- For an entry of bytes and up to 64 digits, `getPrefix` gives the number of the entry's first
  -- bytes, one more than there are whole bytes in the prefix, without the last digits of it.
  pub get_prefix-number :
      (length : ℕ)
      → length ≤ 64
      → get_prefix entry length ≡ number (length / 8 + 1) entry / 2 ^ (8 - length % 8)
  unfolding get_prefix number
  get_prefix-number length fits =
      ap (prefix_from length entry length 0) (omega arith)
      ∙ prefix_from-number length length 0 (omega arith) fits
      ∙ ap (λ t. number t entry / 2 ^ (8 - length % 8)) (omega arith)
