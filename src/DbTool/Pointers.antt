-- ===== src/DbTool/Pointers.antt =====
-- What a caller of `readDBFromFile` gets.
use cip_pir.Base.{◌≡◌, refl, Option, Bool, some, none, false, true, ◌&&◌, ◌==◌, if◌then◌else◌}
use cip_pir.Base.Memory.{Buffer}
use cip_pir.Config.{Config}
use cip_pir.Curve.{Curve}
use cip_pir.DbTool.{RawFile, Pointer, read_db_from_file}

abbrev is_allocated : Pointer → Bool
is_allocated p = p.allocated

either :
    (b : Bool) (p q : Pointer)
    → is_allocated p ≡ false
    → is_allocated q ≡ false
    → is_allocated (if b then p else q) ≡ false
either true p q h g = h
either false p q h g = g

module _ (c : Config) (curve : Curve) where
  -- On no path does `readDBFromFile` return memory that is still allocated.
  pub read_db_from_file-freed :
      (file : Option RawFile) (fresh_db fresh : Buffer)
      → (read_db_from_file c curve file fresh_db fresh).allocated ≡ false
  unfolding read_db_from_file
  read_db_from_file-freed none fresh_db fresh = refl
  read_db_from_file-freed (some f) fresh_db fresh =
      either (f.entries == c.entries && f.entry_size == c.entry_size) _ _ refl refl
