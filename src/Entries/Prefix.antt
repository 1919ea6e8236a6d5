-- ===== src/Entries/Prefix.antt =====
-- `count_0bits` of CIP_PIR/Computation/helper.h, which `compress` of database/createDatabase.cpp
-- uses, and `getPrefix` there.
pub mod Count
pub mod Bits
use Prim.Native.Nat.{bit_or}
use cip_pir.Base.{ℕ, zero, suc, ◌+◌, ◌-◌, ◌*◌, ◌/◌, ◌%◌, ◌^◌, u64, leb, if◌then◌else◌, ◌==◌}
use cip_pir.Base.Memory.{Buffer}

-- The inner loop, which shifts `val` out. It is a `uint8_t`, so eight rounds end it.
unfoldable pub shift_out : ℕ → ℕ → ℕ → ℕ
shift_out zero val length = length
shift_out (suc fuel) val length =
    let rest = shift_out fuel (val / 2) (u64 (length + 2 ^ 64 - 1)) in
    if val == 0 then length else rest

-- The loop over the bytes from `i` on.
unfoldable pub count_from : ℕ → ℕ → Buffer → ℕ → ℕ
count_from zero i db length = length
count_from (suc left) i db length =
    let further = count_from left (i + 1) db (u64 (length + 8)) in
    if db i == 0 then further else shift_out 8 (db i) (u64 (length + 8))

unfoldable pub count_0bits : Buffer → ℕ → ℕ
unfolding count_from
count_0bits db max_length = count_from max_length 0 db 0

-- What a round of `getPrefix` adds, with `length` digits to go: a byte, or its highest digits. The
-- mask keeps the lowest `length` digits.
abbrev pub prefix_part : ℕ → ℕ → ℕ
prefix_part length byte =
    if leb 8 length then u64 (byte * 2 ^ (length - 8)) else byte / 2 ^ (8 - length) % 2 ^ length

-- The loop from byte `j` on. It takes a digit or more in each round, so their number is enough
-- fuel.
unfoldable pub prefix_from : ℕ → Buffer → ℕ → ℕ → ℕ → ℕ
prefix_from zero entry length j prefix = prefix
prefix_from (suc fuel) entry length j prefix =
    let further =
      prefix_from fuel entry (length - 8) (j + 1) (bit_or prefix (prefix_part length (entry j))) in
    if length == 0 then prefix else further

unfoldable pub get_prefix : Buffer → ℕ → ℕ
unfolding prefix_from
get_prefix entry length = prefix_from length entry length 0 0
