-- ===== src/Pipeline/Answer.antt =====
-- What `execute` computes under PIPELINE.
use cip_pir.Lookup.Search.{true-false}
use cip_pir.Base.{
  ℕ, ◌+◌, ◌-◌, ◌*◌, ◌^◌, ◌≤◌, ◌<◌, ◌≡◌, inl, Bool, refl, ap, ◌∙◌, sym, fun_ext, arith, at, true,
  u32, dec_lt,
}
use cip_pir.Base.Memory.{Buffer, advance, copy-inside, copy-outside}
use cip_pir.Config.{Config, IsConfig, pre_offset}
use cip_pir.Chunks.{server_map}
use cip_pir.Walk.Laws.{before-suc}
use cip_pir.Server.{query_size, execute}
use cip_pir.Server.Database.{before-le}
use cip_pir.Kernels.{xor_full_blocks, fastxor}
use cip_pir.Kernels.Rest.{fastxor-suc, fastxor_query}
use cip_pir.Pipeline.{
  Executor, Piped, Step, Reach, start_piped, next_chunk, receive_chunk, load_count, count_chunk,
  complete, begin_execute, add_group, add_rest,
}

abbrev pub rank : Executor → ℕ
rank Executor.idle = 0
rank Executor.running = 1
rank Executor.finished = 2

advance-zero : (b : Buffer) → advance b 0 ≡ b
advance-zero b = fun_ext λ j. ap b (omega arith)

advance-advance : (b : Buffer) (x y : ℕ) → advance (advance b x) y ≡ advance b (x + y)
advance-advance b x y = fun_ext λ j. ap b (omega arith)

module _ (c : Config) (v : IsConfig c) (id : ℕ) (id_in : id < c.servers) where
  abbrev own : ℕ
  own = at (server_map c) id

  own_small : own * 8 < 2 ^ 32
  own_small =
      omega
        (arith, before-suc (server_map c) id, before-le c v (id + 1) (omega arith), v.small_groups)

  pub query_size-own : query_size c id ≡ own
  unfolding query_size
  query_size-own = omega (arith, own_small)

  -- A round of the receiving loop takes no more than is left.
  pub next_chunk_le :
      (n : ℕ)
      → n < query_size c id
      → (1 ≤ next_chunk c id n)
        × (u32 (n + next_chunk c id n) ≡ n + next_chunk c id n)
        × (n + next_chunk c id n ≤ query_size c id)
  next_chunk_le n h = ground (arith, own_small, query_size-own)

  module _ (db sent dest0 : Buffer) where
    abbrev pub answer : Buffer
    answer = fastxor c dest0 db sent own

    -- The rest of the work after one more group.
    rest_after :
        (dest : Buffer) (current g : ℕ)
        → g < own
        → fastxor c
            (xor_full_blocks c dest (advance db (current + sent g * c.block_size)))
            (advance db (current + pre_offset c))
            (advance sent (g + 1))
            (own - (g + 1))
          ≡ fastxor c dest (advance db current) (advance sent g) (own - g)
    rest_after dest current g h =
        ap
          (λ b.
            fastxor c (xor_full_blocks c dest b) (advance db (current + pre_offset c))
              (advance sent (g + 1)) (own - (g + 1)))
          (sym (advance-advance db current (sent g * c.block_size))
            ∙ ap (λ t. advance (advance db current) (sent t * c.block_size)) (omega arith))
        ∙ ap (λ b. fastxor c next b (advance sent (g + 1)) (own - (g + 1)))
            (sym (advance-advance db current (pre_offset c)))
        ∙ ap (λ b. fastxor c next (advance (advance db current) (pre_offset c)) b (own - (g + 1)))
            (sym (advance-advance sent g 1))
        ∙ sym (fastxor-suc c dest (advance db current) (advance sent g) (own - (g + 1)))
        ∙ ap (fastxor c dest (advance db current) (advance sent g)) (omega arith)
      where
        next : Buffer
        next = xor_full_blocks c dest (advance (advance db current) (sent (g + 0) * c.block_size))

    -- Up to `received`, the query is the client's. The bytes that are counted, and the sum that
    -- `addBytes` will store, have been received; from the start of `execute` on `querySent` is set
    -- only if all have been, and what is done and what is left make the answer.
    pub record IsPiped (s : Piped) : Type 0 where
      pub copied : (j : ℕ) → j < s.received → s.query j ≡ sent j
      pub in_query : s.received ≤ own
      pub counted : s.available + s.uncounted ≤ s.received
      pub summed : s.summing ≡ true → s.sum ≤ s.received
      pub all_sent : 1 ≤ rank s.executor → s.query_sent ≡ true → s.received ≡ own
      pub at_start : s.executor ≡ Executor.idle → s.dest ≡ dest0
      pub going :
          s.executor ≡ Executor.running
          → (s.group ≤ own)
            × (fastxor c s.dest (advance db s.current) (advance sent s.group) (own - s.group)
                ≡ answer)
      pub done : s.executor ≡ Executor.finished → s.dest ≡ answer

    start_piped-IsPiped : (fresh : Buffer) (flag : Bool) → IsPiped (start_piped fresh 0 flag dest0)
    unfolding start_piped
    start_piped-IsPiped fresh flag = record {
      copied = λ j h. absurd (omega arith);
      in_query = omega arith;
      counted = omega arith;
      summed = λ e. absurd (true-false (sym e));
      all_sent = λ h. absurd (omega arith);
      at_start = λ e. refl;
      going = λ e. absurd (omega (arith, ap rank e));
      done = λ e. absurd (omega (arith, ap rank e));
    }

    module _ (s : Piped) (i : IsPiped s) where
      receive_chunk-IsPiped : s.received < query_size c id → IsPiped (receive_chunk c id sent s)
      unfolding receive_chunk
      receive_chunk-IsPiped h =
          let (some_byte, exact, inside) = next_chunk_le s.received h in
          record {
            copied = λ j l. elim (dec_lt j s.received) [
              | yes p ↦
                  copy-outside s.query (advance sent s.received) s.received
                    (next_chunk c id s.received) j (inl (omega arith))
                  ∙ i.copied j p
              | no p ↦
                  copy-inside s.query (advance sent s.received) s.received
                    (next_chunk c id s.received) j (j - s.received) (omega (arith, p))
                    (omega (arith, exact, p))
                  ∙ ap sent (omega (arith, p))
            ];
            in_query = omega (arith, exact, inside, query_size-own);
            counted = omega (arith, exact, i.counted);
            summed = λ e. omega (arith, exact, i.summed e);
            all_sent = λ r e. absurd (omega (arith, i.all_sent r e, h, query_size-own));
            at_start = i.at_start;
            going = i.going;
            done = i.done;
          }

      load_count-IsPiped : IsPiped (load_count c id s)
      unfolding load_count
      load_count-IsPiped = record {
        copied = i.copied;
        in_query = i.in_query;
        counted = i.counted;
        summed = λ e. omega (arith, i.counted, i.in_query, own_small);
        all_sent = i.all_sent;
        at_start = i.at_start;
        going = i.going;
        done = i.done;
      }

      count_chunk-IsPiped : s.summing ≡ true → IsPiped (count_chunk c id s)
      unfolding count_chunk
      count_chunk-IsPiped h = record {
        copied = i.copied;
        in_query = i.in_query;
        counted = omega (arith, i.summed h);
        summed = λ e. absurd (true-false (sym e));
        all_sent = i.all_sent;
        at_start = i.at_start;
        going = i.going;
        done = i.done;
      }

      complete-IsPiped : query_size c id ≤ s.received → IsPiped (complete c id s)
      unfolding complete
      complete-IsPiped h = record {
        copied = i.copied;
        in_query = i.in_query;
        counted = i.counted;
        summed = i.summed;
        all_sent = λ r e. omega (arith, h, i.in_query, query_size-own);
        at_start = i.at_start;
        going = i.going;
        done = i.done;
      }

      begin_execute-IsPiped : s.executor ≡ Executor.idle → IsPiped (begin_execute c id s)
      unfolding begin_execute
      begin_execute-IsPiped h = record {
        copied = i.copied;
        in_query = i.in_query;
        counted = omega (arith, i.counted);
        summed = i.summed;
        all_sent = λ r e. absurd (true-false (sym e));
        at_start = λ e. absurd (omega (arith, ap rank e));
        going = λ e. (
          omega arith,
          ap (λ d. fastxor c d (advance db 0) (advance sent 0) (own - 0)) (i.at_start h)
              ∙ ap (λ b. fastxor c dest0 b (advance sent 0) (own - 0)) (advance-zero db)
              ∙ ap (λ b. fastxor c dest0 db b (own - 0)) (advance-zero sent)
              ∙ ap (fastxor c dest0 db sent) (omega arith),
        );
        done = λ e. absurd (omega (arith, ap rank e));
      }

      add_group-IsPiped :
          s.executor ≡ Executor.running → s.group < s.available → IsPiped (add_group c id db s)
      unfolding add_group
      add_group-IsPiped h l =
          let inside : s.group < s.received = omega (arith, i.counted) in
          record {
            copied = i.copied;
            in_query = i.in_query;
            counted = i.counted;
            summed = i.summed;
            all_sent = i.all_sent;
            at_start = λ e. absurd (omega (arith, ap rank (sym h ∙ e)));
            going = λ e. (
              omega (arith, inside, i.in_query),
              ap
                    (λ t.
                      fastxor c
                        (xor_full_blocks c s.dest (advance db (s.current + t * c.block_size)))
                        (advance db (s.current + pre_offset c)) (advance sent (s.group + 1))
                        (own - (s.group + 1)))
                    (i.copied s.group inside)
                  ∙ rest_after s.dest s.current s.group (omega (arith, inside, i.in_query))
                  ∙ (i.going h).1,
            );
            done = λ e. absurd (omega (arith, ap rank (sym h ∙ e)));
          }

      add_rest-IsPiped :
          s.executor ≡ Executor.running → s.query_sent ≡ true → IsPiped (add_rest c id db s)
      unfolding add_rest
      add_rest-IsPiped h e =
          let all = i.all_sent (omega (arith, ap rank h)) e in
          let (inside, rest) = i.going h in
          record {
            copied = i.copied;
            in_query = i.in_query;
            counted = i.counted;
            summed = i.summed;
            all_sent = λ r z. all;
            at_start = λ z. absurd (omega (arith, ap rank z));
            going = λ z. absurd (omega (arith, ap rank z));
            done = λ z.
                fastxor_query c (own - s.group) s.dest (advance db s.current)
                  (advance s.query s.group) (advance sent s.group)
                  (λ g l. i.copied (s.group + g) (omega (arith, all, inside)))
                ∙ rest;
          }

      Step-IsPiped : {t : Piped} → Step c id db sent s t → IsPiped t
      Step-IsPiped (Step.receives r u l) = receive_chunk-IsPiped l
      Step-IsPiped (Step.loads u n) = load_count-IsPiped
      Step-IsPiped (Step.counts h) = count_chunk-IsPiped h
      Step-IsPiped (Step.completes r u l) = complete-IsPiped l
      Step-IsPiped (Step.begins h) = begin_execute-IsPiped h
      Step-IsPiped (Step.adds h q l) = add_group-IsPiped h l
      Step-IsPiped (Step.ends h q) = add_rest-IsPiped h q

    pub Reach-IsPiped :
        (fresh : Buffer) (flag : Bool) {s : Piped}
        → Reach c id db sent (start_piped fresh 0 flag dest0) s
        → IsPiped s
    Reach-IsPiped fresh flag Reach.here = start_piped-IsPiped fresh flag
    Reach-IsPiped fresh flag (Reach.later r e) = Step-IsPiped _ (Reach-IsPiped fresh flag r) e

    -- If `availableBytes` is 0 before the thread is started, whatever `querySent` is: whenever
    -- `execute` has ended under PIPELINE, with whatever interleaving of the steps, the load and the
    -- store of `availableBytes += n` among them, its block is the one that `execute` gives without
    -- PIPELINE for the whole query.
    pub Reach-execute :
        (fresh : Buffer) (flag : Bool) {s : Piped}
        → Reach c id db sent (start_piped fresh 0 flag dest0) s
        → s.executor ≡ Executor.finished
        → s.dest ≡ execute c db id dest0 sent
    unfolding execute
    Reach-execute fresh flag r h = (Reach-IsPiped fresh flag r).done h
