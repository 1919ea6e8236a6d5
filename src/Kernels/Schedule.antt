-- ===== src/Kernels/Schedule.antt =====
-- `fastxor` of Computation/helper.h under OPEN_MP: the rounds of its loop run on several threads,
-- which share `offset`. Only `xorFullBlocks` stands in a critical section.
pub mod Outcome
pub mod Race
use cip_pir.Base.{ℕ, ◌+◌, ◌*◌, ◌<◌, ◌≡◌, if◌then◌else◌, ◌==◌}
use cip_pir.Base.Memory.{Buffer, advance}
use cip_pir.Config.{Config, pre_offset}
use cip_pir.Kernels.{xor_full_blocks}

-- A round: not started; with its own `temp`; with `temp` and the value of `offset` that `+=` has
-- read; with `offset` written back; and with its groups added from address `temp`.
pub data Phase : Type 0 where
  ready : Phase
  addressed : ℕ → Phase
  loaded : ℕ → ℕ → Phase
  advanced : ℕ → Phase
  done : ℕ → Phase

pub record Shared : Type 0 where
  pub offset : ℕ
  pub dest : Buffer
  pub phase : ℕ → Phase

abbrev pub set_phase : (ℕ → Phase) → ℕ → Phase → ℕ → Phase
set_phase phases i p k = if k == i then p else phases k

abbrev pub start_rounds : Buffer → Shared
start_rounds dest = record { offset = 0; dest = dest; phase = λ i. Phase.ready }

module _ (c : Config) (src query : Buffer) (groups : ℕ) where
  -- The next step of round `i`.
  pub data Move (s : Shared) (i : ℕ) : Shared → Type 0 where
    finds :
        s.phase i ≡ Phase.ready
        → Move s i (record s {
          phase = set_phase s.phase i (Phase.addressed (s.offset + query i * c.block_size));
        })
    reads :
        (temp : ℕ)
        → s.phase i ≡ Phase.addressed temp
        → Move s i (record s { phase = set_phase s.phase i (Phase.loaded temp s.offset) })
    adds :
        (temp old : ℕ)
        → s.phase i ≡ Phase.loaded temp old
        → Move s i (record s {
          offset = old + pre_offset c;
          phase = set_phase s.phase i (Phase.advanced temp);
        })
    xors :
        (temp : ℕ)
        → s.phase i ≡ Phase.advanced temp
        → Move s i (record s {
          dest = xor_full_blocks c s.dest (advance src temp);
          phase = set_phase s.phase i (Phase.done temp);
        })

  pub data Runs (s : Shared) : Shared → Type 0 where
    here : Runs s s
    later : {t u : Shared} (i : ℕ) → Runs s t → i < groups → Move t i u → Runs s u
