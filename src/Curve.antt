-- ===== src/Curve.antt =====
-- The curve and the hash: what the code uses of their libraries, which are not part of the
-- repository, as a record, and the functions of CIP_PIR/Computation/helper.h that call them.
use cip_pir.Base.{ℕ}
use cip_pir.Base.Memory.{Buffer}

-- `Fe` has the field's elements, and `Num` the numbers that are exponents. `set_pow`, `set_mul` and
-- `set_div` give what the functions of that name store in the element that they are called on.
pub record Curve : Type 1 where
  pub Fe : Type 0
  pub Num : Type 0
  pub fe_size : ℕ
  pub num_from_bytes : Buffer → ℕ → Num
  pub set_pow : Fe → Num → Fe
  pub set_mul : Fe → Fe → Fe
  pub set_div : Fe → Fe → Fe
  pub export_to_bytes : Fe → Buffer
  pub import_from_bytes : Buffer → Fe
  pub sha256_hash : Buffer → ℕ → Buffer

module _ (curve : Curve) where
  -- `translateToPoint`
  abbrev pub translate_to_point : Buffer → ℕ → curve.Fe → curve.Fe
  translate_to_point buf size generator = curve.set_pow generator (curve.num_from_bytes buf size)

  -- `blindHash`
  abbrev pub blind_hash : curve.Fe → curve.Fe → curve.Fe
  blind_hash point key = curve.set_mul point key

  -- `unblindHash`
  abbrev pub unblind_hash : curve.Fe → curve.Fe → curve.Fe
  unblind_hash point key = curve.set_div point key
