-- ===== src/DbTool.antt =====
-- database/createDatabase.cpp and database/manageDatabase.cpp: making a random database, reading it
-- back, and the file that `preprocess` writes.
pub mod Pointers
pub mod Blinding
use cip_pir.Base.{ℕ, zero, suc, ◌+◌, ◌-◌, ◌*◌, Option, none, some, Bool, true, false}
use cip_pir.Base.{u32, u64, if◌then◌else◌, ◌==◌, ◌&&◌}
use cip_pir.Base.Memory.{Buffer, advance, copy}
use cip_pir.Config.{Config, db_size, group_size}
use cip_pir.Curve.{Curve, translate_to_point, blind_hash}
use cip_pir.Entries.{quicksort, create_manifest}

-- A file of the tool: the numbers of the text header, and the bytes after the header.
pub record RawFile : Type 0 where
  pub entries : ℕ
  pub entry_size : ℕ
  pub body : Buffer

-- A pointer that a function returns: the bytes behind it, and whether they are still allocated.
pub record Pointer : Type 0 where
  pub memory : Buffer
  pub allocated : Bool

-- The two files that `generateRandomDB` writes.
pub record Generated : Type 0 where
  pub file : RawFile
  pub manifest : Buffer

module _ (c : Config) (curve : Curve) where
  -- The loop of `blindDB`, from entry `i` on, with entries of `unblinded_size` bytes before it.
  -- `i * UNBLINDED_ENTRYSIZE` is a product of a `uint32_t` and an `int`, `i * ENTRYSIZE` one with a
  -- `uint64_t`.
  blind_from : ℕ → ℕ → ℕ → Buffer → curve.Fe → curve.Fe → Buffer → Buffer
  blind_from zero i unblinded_size unblinded generator key db = db
  blind_from (suc left) i unblinded_size unblinded generator key db =
      let point =
        translate_to_point curve (advance unblinded (u32 (i * unblinded_size))) unblinded_size
          generator in
      let bytes = curve.export_to_bytes (blind_hash curve point key) in
      blind_from left (i + 1) unblinded_size unblinded generator key
        (copy db (u64 (i * c.entry_size)) (curve.sha256_hash bytes curve.fe_size) c.entry_size)

  -- `blindDB`
  pub blind_db : ℕ → Buffer → curve.Fe → curve.Fe → Buffer → Buffer
  unfolding blind_from
  blind_db unblinded_size unblinded generator key db =
      blind_from c.entries 0 unblinded_size unblinded generator key db

  -- `generateRandomDB` with SORTING, for the bytes and the field elements that the generators
  -- draw. `fresh` is what `malloc` and the files have where nothing is written.
  pub generate_random_db : ℕ → Buffer → curve.Fe → curve.Fe → Buffer → Generated
  unfolding blind_db
  generate_random_db unblinded_size random generator key fresh =
      let blinded = blind_db unblinded_size random generator key fresh in
      let db = quicksort c blinded 0 c.entries in
      let with_generator = copy fresh 0 (curve.export_to_bytes generator) curve.fe_size in
      let with_key = copy with_generator curve.fe_size (curve.export_to_bytes key) curve.fe_size in
      record {
        file = record {
          entries = c.entries;
          entry_size = c.entry_size;
          body = copy with_key (curve.fe_size + curve.fe_size) db (db_size c);
        };
        manifest = create_manifest c (curve.export_to_bytes generator) curve.fe_size fresh db;
      }

  -- What `readDBFromFile` copies into `db`: the second `read` starts at the front of the buffer
  -- again, behind the byte that ends the header.
  read_back : RawFile → Buffer → Buffer → Buffer
  read_back f fresh_db fresh =
      let first = copy fresh 0 f.body 1 in
      let buffer = copy first 0 (advance f.body 1) (db_size c) in
      copy fresh_db 0 buffer (db_size c + 2 * curve.fe_size)

  -- `readDBFromFile`: every path frees `db` before it returns it.
  pub read_db_from_file : Option RawFile → Buffer → Buffer → Pointer
  unfolding read_back
  read_db_from_file none fresh_db fresh = record { memory = fresh_db; allocated = false }
  read_db_from_file (some f) fresh_db fresh =
      if f.entries == c.entries && f.entry_size == c.entry_size
      then record { memory = read_back f fresh_db fresh; allocated = false }
      else record { memory = fresh_db; allocated = false }

  -- `preprocess`: the bytes behind the header of the file that it writes, of which it gives the
  -- number, for the bytes `raw` of `database/raw.db` from its start.
  pub preprocess : Buffer → Buffer → Buffer × ℕ
  preprocess raw fresh = (
    copy (copy fresh 0 raw curve.fe_size) curve.fe_size (advance raw curve.fe_size) curve.fe_size,
    curve.fe_size + curve.fe_size,
  )
