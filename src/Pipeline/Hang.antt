-- ===== src/Pipeline/Hang.antt =====
-- When `execute` ends under PIPELINE and when it does not.
use cip_pir.Base.{
  ℕ, zero, suc, ◌+◌, ◌≤◌, ◌<◌, ◌≡◌, refl, ap, ◌∙◌, sym, arith, Bool, true, false, dec_lt,
  ℕ_discrete,
}
use cip_pir.Lookup.Search.{true-false}
use cip_pir.Base.Memory.{Buffer}
use cip_pir.Config.{Config, IsConfig}
use cip_pir.Server.{query_size, execute}
use cip_pir.Pipeline.{
  Executor, Piped, Step, Reach, start_piped, receive_chunk, load_count, count_chunk, complete,
  begin_execute, add_rest,
}
use cip_pir.Pipeline.Answer.{rank, next_chunk_le, Reach-execute}

module _ (c : Config) (v : IsConfig c) (id : ℕ) (id_in : id < c.servers)
    (db sent dest0 fresh : Buffer) where
  module _ (available : ℕ) (flag : Bool) where
    abbrev From : Piped → Type 0
    From t = Reach c id db sent (start_piped fresh available flag dest0) t

    -- A state that the receiving loop leads to at its end.
    abbrev Received : Executor → Type 0
    Received e =
        (t : Piped) × From t
        × (t.receiving ≡ true)
        × (t.uncounted ≡ 0)
        × (t.summing ≡ false)
        × (query_size c id ≤ t.received)
        × (t.executor ≡ e)

    -- The receiving loop goes on to its end.
    receive_all :
        (fuel : ℕ) (s : Piped)
        → From s
        → s.receiving ≡ true
        → s.uncounted ≡ 0
        → s.summing ≡ false
        → query_size c id ≤ s.received + fuel
        → Received s.executor
    unfolding receive_chunk load_count count_chunk
    receive_all zero s r on none_left free enough = (s, r, on, none_left, free, omega arith, refl)
    receive_all (suc fuel) s r on none_left free enough =
        elim (dec_lt s.received (query_size c id)) [
          | yes h ↦
              let (some_byte, exact, inside) = next_chunk_le c v id id_in s.received h in
              let taken = Reach.later r (Step.receives on none_left h) in
              let loaded = Reach.later taken (Step.loads some_byte free) in
              let counted = Reach.later loaded (Step.counts refl) in
              receive_all fuel _ counted on refl refl (omega (arith, exact, some_byte))
          | no h ↦ (s, r, on, none_left, free, omega (arith, h), refl)
        ]

    -- The same for a loop that is in the middle of a round.
    receive_on :
        (s : Piped) → From s → s.receiving ≡ true → (b : Bool) → s.summing ≡ b → Received s.executor
    unfolding load_count count_chunk
    receive_on s r on true h =
        receive_all (query_size c id) (count_chunk c id s) (Reach.later r (Step.counts h)) on refl
          refl (omega arith)
    receive_on s r on false h = elim (ℕ_discrete s.uncounted 0) [
      | yes e ↦ receive_all (query_size c id) s r on e h (omega arith)
      | no n ↦
          let loaded = Reach.later r (Step.loads (omega (arith, n)) h) in
          receive_all (query_size c id) (count_chunk c id (load_count c id s))
            (Reach.later loaded (Step.counts refl)) on refl refl (omega arith)
    ]

    -- If the receiving thread is through before `execute` starts, `execute` clears `querySent` and
    -- waits for ever: a schedule leads to a state in which it is in its loop and no thread can make
    -- a step.
    pub execute_can_hang :
        (t : Piped) × From t
        × (t.executor ≡ Executor.running)
        × ((u : Piped) → ¬ Step c id db sent t u)
    unfolding start_piped complete begin_execute
    execute_can_hang =
        let (s, r, on, none_left, free, all, same) =
          receive_all (query_size c id) (start_piped fresh available flag dest0) Reach.here refl
            refl refl (omega arith) in
        let completed = Reach.later r (Step.completes on none_left all) in
        let begun = Reach.later completed (Step.begins same) in
        (_, begun, refl, no_step s none_left free)
      where
        no_step :
            (s : Piped)
            → s.uncounted ≡ 0
            → s.summing ≡ false
            → (u : Piped) → ¬ Step c id db sent (begin_execute c id (complete c id s)) u
        no_step s e f u (Step.receives on n h) = true-false (sym on)
        no_step s e f u (Step.loads h n) = omega (arith, e, h)
        no_step s e f u (Step.counts h) = true-false (sym h ∙ f)
        no_step s e f u (Step.completes on n h) = true-false (sym on)
        no_step s e f u (Step.begins h) = omega (arith, ap rank h)
        no_step s e f u (Step.adds h q l) = omega (arith, l)
        no_step s e f u (Step.ends h q) = true-false (sym q)

  module _ (flag : Bool) where
    -- If `availableBytes` is 0 before the thread is started, whatever `querySent` is, and `execute`
    -- has started before the receiving thread is through: a schedule leads on to its end, with the
    -- block that `execute` gives without PIPELINE for the whole query.
    pub execute_can_end :
        (s : Piped)
        → From 0 flag s
        → s.receiving ≡ true
        → s.executor ≡ Executor.running
        → (t : Piped) × From 0 flag t
          × (t.executor ≡ Executor.finished)
          × (t.dest ≡ execute c db id dest0 sent)
    unfolding complete add_rest
    execute_can_end s r on running =
        let (t, to_end, on', none_left, free, all, same) =
          receive_on 0 flag s r on s.summing refl in
        let completed = Reach.later to_end (Step.completes on' none_left all) in
        let ended = Reach.later completed (Step.ends (same ∙ running) refl) in
        (_, ended, refl, Reach-execute c v id id_in db sent dest0 fresh flag ended refl)
