-- ===== src/Vm/Step.antt =====
-- `CVm8051::StepRun` (src/vm/vm8051.cpp): the switch over the opcode.
pub mod Low
pub mod High
use dacrs.Base.{ℕ, List, [], ◌∷◌, get_or}
use dacrs.Base.Words.{low_bits, shr}
use dacrs.Vm.State.{Vm}
use Low.{
  step_run_00, step_run_10, step_run_20, step_run_30, step_run_40, step_run_50, step_run_60,
  step_run_70,
}
use High.{
  step_run_80, step_run_90, step_run_a0, step_run_b0, step_run_c0, step_run_d0, step_run_e0,
  step_run_f0,
}

-- All the cases: the case of an opcode stands in the row of its high digit, at its low digit.
unfoldable pub step_rows : List (List (Vm → Vm))
step_rows =
    step_run_00 ∷ step_run_10 ∷ step_run_20 ∷ step_run_30 ∷ step_run_40 ∷ step_run_50 ∷ step_run_60
    ∷ step_run_70 ∷ step_run_80 ∷ step_run_90 ∷ step_run_a0 ∷ step_run_b0 ∷ step_run_c0
    ∷ step_run_d0 ∷ step_run_e0 ∷ step_run_f0 ∷ []

-- `default: break` leaves the machine alone.
unfoldable pub step_default : Vm → Vm
step_default vm = vm

unfoldable pub step_run : ℕ → Vm → Vm
unfolding step_default
step_run code = get_or (get_or step_rows (shr code 4) []) (low_bits code 4) step_default
