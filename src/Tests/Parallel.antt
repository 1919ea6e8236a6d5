-- ===== src/Tests/Parallel.antt =====
-- The kernels on several threads and on the accelerator.
use cip_pir.Base.{ℕ, zero, suc, ◌+◌, ◌*◌, ◌/◌, ◌<◌, ◌≡◌, arith, refl, if◌then◌else◌, ltb, bit_xor}
use cip_pir.Base.Memory.{Buffer, zeros}
use cip_pir.Base.Sum.{xsum}
use cip_pir.Config.{default_config, pre_offset}
use cip_pir.Kernels.{fastxor}
use cip_pir.Kernels.Groups.{entry}
use cip_pir.Kernels.Threads.{completexor}
use cip_pir.Kernels.Threads.Split.{completexor-fastxor}
use cip_pir.Kernels.Schedule.{Phase, Shared, start_rounds, Move, Runs}
use cip_pir.Kernels.Schedule.Outcome.{Runs-fastxor}
use cip_pir.Kernels.Schedule.Race.{second_round_reads_first_table}
use cip_pir.Accelerator.{compute, accelerated_fastxor}
use cip_pir.Accelerator.Kernel.{IsSmall}
use cip_pir.Accelerator.Compute.{compute-fastxor, accelerated_fastxor-fastxor}
use cip_pir.Tests.Setup.{small}

abbrev table : Buffer
table o = o / 7

abbrev ones : Buffer
ones i = 1

-- Seven groups on three threads.
completexor-fastxor_example :
    completexor default_config 3 ones table ones 7 5
    ≡ (if ltb 5 1024 then fastxor default_config zeros table ones 7 5 else 1)
completexor-fastxor_example = completexor-fastxor default_config table ones 3 7 5 ones (omega arith)

-- One round, run to its end.
one_round :
    (s : Shared) × Runs small table ones 1 (start_rounds ones) s × (s.phase 0 ≡ Phase.done 2)
one_round = (
  _,
  Runs.later 0
      (Runs.later 0
        (Runs.later 0 (Runs.later 0 Runs.here (omega arith) (Move.finds refl)) (omega arith)
          (Move.reads _ refl))
        (omega arith) (Move.adds _ _ refl))
      (omega arith) (Move.xors _ refl),
  refl,
)

one_round_found :
    (i : ℕ)
    → i < 1
    → one_round.0.phase i ≡ Phase.done (i * pre_offset small + ones i * small.block_size)
one_round_found zero h = one_round.2
one_round_found (suc i) h = absurd (omega arith)

Runs-fastxor_example : one_round.0.dest 1 ≡ fastxor small ones table ones 1 1
Runs-fastxor_example =
    Runs-fastxor small table ones 1 ones one_round.0 1 one_round.1 one_round_found (omega arith)

second_round_reads_first_table_example :
    (s : Shared) × Runs small table ones 2 (start_rounds ones) s
    × ((i : ℕ) → i < 2 → (temp : ℕ) × (s.phase i ≡ Phase.done temp))
    × ((j : ℕ) → j < 2 → s.dest j ≡ bit_xor 1 (xsum 2 (λ i. entry small table 0 1 j)))
second_round_reads_first_table_example = second_round_reads_first_table small table ones ones

default-IsSmall : IsSmall default_config
default-IsSmall = record { some_word = omega arith; words = refl; one_each = omega arith }

-- Block 2 of the second launch, for three groups, is made from the bytes at 246: those of query 82.
compute-fastxor_example :
    compute default_config zeros table zeros 3 250 (λ i. i) ((1 * 240 + 2) * 1024 + 5)
    ≡ fastxor default_config zeros table (λ i. 1 * 240 + 2 * 3 + i) 3 5
compute-fastxor_example =
    compute-fastxor default_config default-IsSmall table zeros zeros 3 250 (λ i. i) 1 2 5
      (omega arith) (omega arith) (omega arith) (omega arith)

accelerated_fastxor-fastxor_example :
    accelerated_fastxor default_config zeros table ones ones 3 5
    ≡ fastxor default_config zeros table ones 3 5
accelerated_fastxor-fastxor_example =
    accelerated_fastxor-fastxor default_config default-IsSmall table zeros ones ones 3 5
      (omega arith) (omega arith) (omega arith)
