-- ===== src/Tests/Sort.antt =====
-- The making and the sorting of a database, and the zeros in front of a number, at a small
-- configuration.
use cip_pir.Base.{
  zero, suc, [], ◌∷◌, at, refl, ◌-◌, arith, ℕ, ◌+◌, ◌*◌, ◌<◌, ◌≡◌, if◌then◌else◌, ltb,
}
use cip_pir.Base.Memory.{Buffer, IsBytes, advance, zeros}
use cip_pir.DbTool.{generate_random_db}
use cip_pir.DbTool.Blinding.{blinded_entry, generate_random_db-IsAscending}
use cip_pir.Entries.{quicksort}
use cip_pir.Entries.Prefix.{shift_out, count_from, count_0bits}
use cip_pir.Entries.Sort.{IsAscending, IsSorting, quicksort-IsSorting}
use cip_pir.Tests.Setup.{two_byte, toy_curve}

-- Ten entries of two bytes, in descending order.
abbrev descending : Buffer
descending i = if ltb i 100 then 200 - i else 0

quicksort-IsSorting_example :
    IsSorting two_byte 0 10 descending (quicksort two_byte descending 0 10)
quicksort-IsSorting_example =
    quicksort-IsSorting two_byte 10 (omega arith) descending 0 10 (omega arith) (omega arith)
      (λ i. ground arith)

-- Two bytes, of which the number 5 has three digits.
abbrev five : Buffer
five i = at (0 ∷ 5 ∷ []) i

five_zeros : count_0bits five 2 ≡ 13
unfolding shift_out count_from count_0bits
five_zeros = refl

five-IsBytes : IsBytes five
five-IsBytes zero = omega arith
five-IsBytes (suc zero) = omega arith
five-IsBytes (suc (suc i)) = omega arith

generate_random_db-IsAscending_example :
    let made = generate_random_db two_byte toy_curve 3 descending 1 2 zeros in
    let body = advance made.file.body (3 + 3) in
    (from back : ℕ → ℕ) × ((i : ℕ) → from (back i) ≡ i)
    × ((i : ℕ) → back (from i) ≡ i)
    × ((i : ℕ)
        → i < 10
        → (from i < 10)
          × ((j : ℕ)
              → j < 2
              → body (i * 2 + j) ≡ blinded_entry two_byte toy_curve 3 descending 1 2 (from i) j))
    × IsAscending two_byte 0 10 body
generate_random_db-IsAscending_example =
    generate_random_db-IsAscending two_byte toy_curve 3 descending 1 2 (omega arith) (omega arith)
      (λ b n i. omega arith) zeros (λ i. omega arith) (omega arith)
