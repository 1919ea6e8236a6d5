-- ===== src/Pipeline/Ahead.antt =====
-- A schedule in which `execute` works on query bytes that have not been received: `addBytes` loads
-- what an earlier query has left in `availableBytes`, `execute` clears it, and `addBytes` stores
-- its sum.
use cip_pir.Base.{ℕ, zero, suc, ◌+◌, ◌^◌, ◌≤◌, ◌<◌, ◌≡◌, refl, arith, Bool, false, u32}
use cip_pir.Base.Memory.{Buffer}
use cip_pir.Config.{Config, IsConfig}
use cip_pir.Server.{query_size}
use cip_pir.Pipeline.{
  Executor, Piped, Step, Reach, start_piped, next_chunk, receive_chunk, load_count, count_chunk,
  begin_execute, add_group,
}
use cip_pir.Pipeline.Answer.{next_chunk_le}

module _ (c : Config) (v : IsConfig c) (id : ℕ) (id_in : id < c.servers)
    (db sent dest0 fresh : Buffer) (available : ℕ) (flag : Bool) where
  abbrev From : Piped → Type 0
  From t = Reach c id db sent (start_piped fresh available flag dest0) t

  -- `execute` adds groups as long as `availableBytes` lets it.
  add_groups :
      (n : ℕ) (s : Piped)
      → From s
      → s.executor ≡ Executor.running
      → s.query_sent ≡ false
      → s.group + n ≤ s.available
      → (t : Piped) × From t
        × (t.executor ≡ Executor.running)
        × (t.received ≡ s.received)
        × (t.group ≡ s.group + n)
  unfolding add_group
  add_groups zero s r running going enough = (s, r, running, refl, omega arith)
  add_groups (suc n) s r running going enough =
      let added = Reach.later r (Step.adds running going (omega (arith, enough))) in
      let (t, r', running', same, groups) =
        add_groups n (add_group c id db s) added running going (omega (arith, enough)) in
      (t, r', running', same, omega (arith, groups))

  -- If an earlier query has left some bytes in `availableBytes`, and these and those of this query
  -- fit `uint32_t`: a schedule leads to a state in which `execute` is in its loop and has used more
  -- bytes of the query than have been received.
  pub execute_can_run_ahead :
      1 ≤ available
      → 1 ≤ query_size c id
      → available + query_size c id < 2 ^ 32
      → (t : Piped) × From t × (t.executor ≡ Executor.running) × (t.received < t.group)
  unfolding start_piped receive_chunk load_count count_chunk begin_execute
  execute_can_run_ahead left some_byte few =
      let (some, exact, inside) = next_chunk_le c v id id_in 0 (omega arith) in
      let enough : 0 + (next_chunk c id 0 + 1) ≤ u32 (available + next_chunk c id 0) =
        omega (arith, exact, inside) in
      let r = Reach.later Reach.here (Step.receives refl refl (omega arith)) in
      let r = Reach.later r (Step.loads (omega (arith, some)) refl) in
      let r = Reach.later r (Step.begins refl) in
      let r = Reach.later r (Step.counts refl) in
      let (t, r', running, same, groups) =
        add_groups (next_chunk c id 0 + 1) _ r refl refl enough in
      (t, r', running, omega (arith, same, groups, exact))
