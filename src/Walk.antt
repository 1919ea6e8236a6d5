-- ===== src/Walk.antt =====
-- The loops over `chunksGroupsMap` that find where a server's chunks lie. A server holds
-- `CHUNKS` chunks from its own on, going round after the last chunk, so the code walks to the right
-- end of the map first and then goes on from its left end. Client and servers run the same two
-- loops, in different widths: `wrap` is the wrap of the sum's type.
pub mod Laws
use cip_pir.Base.{ℕ, zero, suc, ◌+◌, ◌-◌, ◌%◌, List}
use cip_pir.Base.{if◌then◌else◌, ltb, at, length}

module _ (wrap : ℕ → ℕ) (m : List ℕ) where
  -- To the right from chunk `j`, with `left` chunks to go: the sum, and the chunks still to go.
  pub walk_right : ℕ → ℕ → ℕ → ℕ → ℕ × ℕ
  walk_right end zero j acc = (acc, 0)
  walk_right end (suc left) j acc =
      let rest = walk_right end left (j + 1) (wrap (acc + at m j)) in
      if ltb j end then rest else (acc, suc left)

  -- From chunk `j` on, for `left` chunks.
  pub walk_left : ℕ → ℕ → ℕ → ℕ
  walk_left zero j acc = acc
  walk_left (suc left) j acc = walk_left left (j + 1) (wrap (acc + at m j))

  -- `sum += map[id - 1 - i]` from `i` on, for `left` rounds.
  pub walk_back : ℕ → ℕ → ℕ → ℕ → ℕ
  walk_back id zero i acc = acc
  walk_back id (suc left) i acc = walk_back id left (i + 1) (wrap (acc + at m (id - 1 - i)))

  -- `sum += map[(id + i) % map.size()]` from `i` on, for `left` rounds.
  unfoldable pub walk_round : ℕ → ℕ → ℕ → ℕ → ℕ
  walk_round id zero i acc = acc
  walk_round id (suc left) i acc =
      walk_round id left (i + 1) (wrap (acc + at m ((id + i) % length m)))
