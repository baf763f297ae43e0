-- ===== src/Vm/Closure/Rows.antt =====
-- The rows of the opcode table, read as writes.
use dacrs.Base.{ℕ, zero, suc, ◌≢◌, refl, Bool, true, false, All, get_or, get_or-All}
use dacrs.Vm.State.{Vm}
use dacrs.Vm.Step.Low.{
  step_run_00, step_run_10, step_run_20, step_run_30, step_run_40, step_run_50, step_run_60,
  step_run_70,
}
use dacrs.Vm.Step.High.{
  step_run_80, step_run_90, step_run_a0, step_run_b0, step_run_c0, step_run_d0, step_run_e0,
  step_run_f0, step_run_f4,
}
use dacrs.Vm.Step.{step_default}
use dacrs.Vm.Closure.Writes.{Writes, start}
use dacrs.Vm.Closure.Arith.{arith_writes}
use dacrs.Vm.Closure.Logic.{logic_writes}
use dacrs.Vm.Closure.Move.{move_writes}
use dacrs.Vm.Closure.Bits.{bits_writes}
use dacrs.Vm.Closure.Flow.{acall-Writes, flow_writes}

abbrev pub IsLocal : Bool → (Vm → Vm) → Type 0
IsLocal ext op = (vm : Vm) → Writes ext vm (op vm)

ruleset op_writes = (arith_writes, logic_writes, move_writes, bits_writes, flow_writes)

module _ (ext : Bool) where
  pub step_run_00-IsLocal : All (IsLocal ext) step_run_00
  unfolding step_run_00
  step_run_00-IsLocal = search op_writes

  pub step_run_10-IsLocal : All (IsLocal ext) step_run_10
  unfolding step_run_10
  step_run_10-IsLocal = search op_writes

  pub step_run_20-IsLocal : All (IsLocal ext) step_run_20
  unfolding step_run_20
  step_run_20-IsLocal = search op_writes

  pub step_run_30-IsLocal : All (IsLocal ext) step_run_30
  unfolding step_run_30
  step_run_30-IsLocal = search op_writes

  pub step_run_40-IsLocal : All (IsLocal ext) step_run_40
  unfolding step_run_40
  step_run_40-IsLocal = search op_writes

  pub step_run_50-IsLocal : All (IsLocal ext) step_run_50
  unfolding step_run_50
  step_run_50-IsLocal = search op_writes

  pub step_run_60-IsLocal : All (IsLocal ext) step_run_60
  unfolding step_run_60
  step_run_60-IsLocal = search op_writes

  pub step_run_70-IsLocal : All (IsLocal ext) step_run_70
  unfolding step_run_70
  step_run_70-IsLocal = search op_writes

  pub step_run_80-IsLocal : All (IsLocal ext) step_run_80
  unfolding step_run_80
  step_run_80-IsLocal = search op_writes

  pub step_run_90-IsLocal : All (IsLocal ext) step_run_90
  unfolding step_run_90
  step_run_90-IsLocal = search op_writes

  pub step_run_a0-IsLocal : All (IsLocal ext) step_run_a0
  unfolding step_run_a0
  step_run_a0-IsLocal = search op_writes

  pub step_run_b0-IsLocal : All (IsLocal ext) step_run_b0
  unfolding step_run_b0
  step_run_b0-IsLocal = search op_writes

  pub step_run_c0-IsLocal : All (IsLocal ext) step_run_c0
  unfolding step_run_c0
  step_run_c0-IsLocal = search op_writes

  pub step_run_d0-IsLocal : All (IsLocal ext) step_run_d0
  unfolding step_run_d0
  step_run_d0-IsLocal = search op_writes

  pub step_run_e0-IsLocal : All (IsLocal ext) step_run_e0
  unfolding step_run_e0
  step_run_e0-IsLocal = search op_writes

step_run_f4-IsLocal : (ext : Bool) → All (IsLocal ext) step_run_f4
unfolding step_run_f4
step_run_f4-IsLocal ext = search op_writes

pub step_run_f0-IsLocal : All (IsLocal true) step_run_f0
unfolding step_run_f0
step_run_f0-IsLocal = search op_writes

pub ruleset row_laws = (
  step_run_00-IsLocal, step_run_10-IsLocal, step_run_20-IsLocal, step_run_30-IsLocal,
  step_run_40-IsLocal, step_run_50-IsLocal, step_run_60-IsLocal, step_run_70-IsLocal,
  step_run_80-IsLocal, step_run_90-IsLocal, step_run_a0-IsLocal, step_run_b0-IsLocal,
  step_run_c0-IsLocal, step_run_d0-IsLocal, step_run_e0-IsLocal,
)

-- The last row, but for MOVX @DPTR,A and MOVX @Ri,A.
pub step_run_f0-IsLocal_rest :
    (low : ℕ) → low ≢ 0 → low ≢ 2 → low ≢ 3 → IsLocal false (get_or step_run_f0 low step_default)
unfolding step_run_f0 step_default
step_run_f0-IsLocal_rest zero p q r = absurd (p refl)
step_run_f0-IsLocal_rest (suc zero) p q r = acall-Writes 0xF1
step_run_f0-IsLocal_rest (suc (suc zero)) p q r = absurd (q refl)
step_run_f0-IsLocal_rest (suc (suc (suc zero))) p q r = absurd (r refl)
step_run_f0-IsLocal_rest (suc (suc (suc (suc low)))) p q r =
    get_or-All (IsLocal false) step_run_f4 low step_default (step_run_f4-IsLocal false)
      (λ vm. start)
