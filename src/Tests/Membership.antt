-- ===== src/Tests/Membership.antt =====
-- A search for a hash, at the small configuration.
use Prim.Native.Nat.{Ordering}
use mathlib.Core.List.Perm
use cip_pir.Base.{
  ℕ, zero, suc, ◌+◌, ◌-◌, ◌*◌, ◌/◌, ◌%◌, ◌<◌, ◌≡◌, ◌≢◌, ◌↔◌, arith, refl, Bool, true, false, some,
  [], ◌∷◌, u8,
}
use cip_pir.Base.Memory.{Buffer, IsBytes, zeros}
use cip_pir.Base.Order.{below, IsOrder}
use cip_pir.Curve.{Curve}
use cip_pir.Client.{Client}
use cip_pir.Entries.{create_manifest, memcmp, manifest_from}
use cip_pir.Entries.Sort.{IsAscending}
use cip_pir.Entries.Number.{number}
use cip_pir.Lookup.{against_manifest, read_manifest, point_bytes, check_hash}
use cip_pir.Lookup.Place.{IsEven}
use cip_pir.Lookup.Search.{above}
use cip_pir.Lookup.Membership.{IsIn, check_hash-IsIn}
use cip_pir.Tests.Setup.{
  small, small-IsConfig, small_blocks, small_file, small-preprocessed, small_peers,
  small_peers-IsReady, toy_crypto,
}

small-IsEven : IsEven small
small-IsEven = omega arith

abbrev sorted : Buffer
sorted i = u8 (10 * (i / 2) + i % 2)

sorted-IsBytes : IsBytes sorted
sorted-IsBytes i = omega arith

sorted-IsAscending : IsAscending small 0 20 sorted
unfolding number
sorted-IsAscending a b p q h = omega arith

sorted_blocks : (b j : ℕ) → b < 10 → j < 2 → small_blocks b j ≡ sorted (b * 2 + j)
sorted_blocks b j p q = omega arith

-- A stand-in for the curve library whose elements are bytes.
abbrev byte_curve : Curve
byte_curve = record {
  Fe = ℕ;
  Num = ℕ;
  fe_size = 3;
  num_from_bytes = λ b n. b 0;
  set_pow = λ g n. n + g;
  set_mul = λ p k. p + k;
  set_div = λ p k. p - k;
  export_to_bytes = λ p i. u8 (p + i);
  import_from_bytes = λ b. b 0;
  sha256_hash = λ b n i. u8 (b i);
}

abbrev manifest : Buffer
manifest = (read_manifest small byte_curve 3 (create_manifest small zeros 3 zeros sorted) zeros).1

-- The hash's point begins with 31, the second entry of the fourth block.
abbrev hash : Buffer
hash i = 30

abbrev point : Buffer
point = point_bytes small byte_curve toy_crypto small_peers 1 5 hash 1

point-IsBytes : IsBytes point
unfolding point_bytes
point-IsBytes i = omega arith

stops : above small point manifest 3 ≡ false
unfolding memcmp point_bytes read_manifest create_manifest manifest_from
stops = refl

differ : (m : ℕ) → m + 1 < 10 → against_manifest small point manifest m ≢ Ordering.eq
unfolding memcmp point_bytes read_manifest create_manifest manifest_from
differ zero h = λ e. ground arith
differ (suc zero) h = λ e. ground arith
differ (suc (suc zero)) h = λ e. ground arith
differ (suc (suc (suc zero))) h = λ e. ground arith
differ (suc (suc (suc (suc zero)))) h = λ e. ground arith
differ (suc (suc (suc (suc (suc zero))))) h = λ e. ground arith
differ (suc (suc (suc (suc (suc (suc zero)))))) h = λ e. ground arith
differ (suc (suc (suc (suc (suc (suc (suc zero))))))) h = λ e. ground arith
differ (suc (suc (suc (suc (suc (suc (suc (suc zero)))))))) h = λ e. ground arith
differ (suc (suc (suc (suc (suc (suc (suc (suc (suc m))))))))) h = absurd (omega arith)

abbrev blank : Client
blank = record { query_buf = zeros; result_buf = zeros }

up : IsOrder 2 (0 ∷ 1 ∷ [])
unfolding below
up = Perm.swap 1 0 []

check_hash-IsIn_example :
    (b : Bool) × (check_hash small byte_curve toy_crypto small_peers 10
        (0 ∷ 1 ∷ [])
        (0 ∷ 1 ∷ [])
        manifest
        1
        5
        hash
        1
        blank
      ≡ some b)
    × ((b ≡ true) ↔ IsIn small sorted point)
check_hash-IsIn_example =
    check_hash-IsIn small small-IsConfig small-IsEven toy_crypto small_peers small_file 3
      small_blocks small-preprocessed small_peers-IsReady sorted sorted-IsBytes sorted-IsAscending
      sorted_blocks byte_curve zeros zeros zeros 1 5 hash 1 10 3 (0 ∷ 1 ∷ []) (0 ∷ 1 ∷ []) blank
      point-IsBytes (omega arith) (omega arith) stops differ up up
