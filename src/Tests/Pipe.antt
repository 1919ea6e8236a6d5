-- ===== src/Tests/Pipe.antt =====
-- A query of one byte under PIPELINE, at the small configuration.
use cip_pir.Base.{◌+◌, ◌<◌, ◌≡◌, true, false, refl, arith}
use cip_pir.Base.Memory.{Buffer, zeros}
use cip_pir.Chunks.{server_map}
use cip_pir.Server.{execute, query_size}
use cip_pir.Pipeline.{Executor, Piped, Step, Reach, start_piped, begin_execute}
use cip_pir.Pipeline.Answer.{Reach-execute}
use cip_pir.Pipeline.Ahead.{execute_can_run_ahead}
use cip_pir.Pipeline.Hang.{execute_can_hang, execute_can_end}
use cip_pir.Tests.Setup.{small, small-IsConfig, below_1}

abbrev table : Buffer
table i = i

abbrev query : Buffer
query i = 3 + i

abbrev started : Piped
started = start_piped zeros 0 true table

began : Reach small 1 table query started (begin_execute small 1 started)
unfolding start_piped
began = Reach.later Reach.here (Step.begins refl)

execute_can_end_example :
    (t : Piped) × Reach small 1 table query started t
    × (t.executor ≡ Executor.finished)
    × (t.dest ≡ execute small table 1 table query)
unfolding start_piped begin_execute
execute_can_end_example =
    execute_can_end small small-IsConfig 1 below_1 table query table zeros true
      (begin_execute small 1 started) began refl refl

-- The run above, up to the end of `execute`.
ended : (t : Piped) × Reach small 1 table query started t × (t.executor ≡ Executor.finished)
unfolding start_piped begin_execute
ended =
    let (t, r, h, e) =
      execute_can_end small small-IsConfig 1 below_1 table query table zeros true
        (begin_execute small 1 started) began refl refl in
    (t, r, h)

Reach-execute_example : ended.0.dest ≡ execute small table 1 table query
Reach-execute_example =
    Reach-execute small small-IsConfig 1 below_1 table query table zeros true ended.1 ended.2

execute_can_hang_example :
    (t : Piped) × Reach small 1 table query started t
    × (t.executor ≡ Executor.running)
    × ((u : Piped) → ¬ Step small 1 table query t u)
execute_can_hang_example =
    execute_can_hang small small-IsConfig 1 below_1 table query table zeros 0 true

execute_can_run_ahead_example :
    (t : Piped) × Reach small 1 table query (start_piped zeros 5 false table) t
    × (t.executor ≡ Executor.running)
    × (t.received < t.group)
unfolding query_size server_map
execute_can_run_ahead_example =
    execute_can_run_ahead small small-IsConfig 1 below_1 table query table zeros 5 false
      (omega arith) (omega arith) (omega arith)
