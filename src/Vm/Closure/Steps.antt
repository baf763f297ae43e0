-- ===== src/Vm/Closure/Steps.antt =====
-- `CVm8051::StepRun` as writes: whatever the opcode, and without the external memory for all
-- opcodes but the three that store there.
use dacrs.Base.{
  ℕ, ◌≡◌, ◌≢◌, refl, ◌⊎◌, inl, inr, Bool, true, false, [], All, AllFrom, get_or, get_or-All,
  get_or-AllFrom, arith, ℕ_discrete,
}
use dacrs.Base.Words.{shr, low_bits}
use dacrs.Vm.State.{Vm}
use dacrs.Vm.Step.{step_rows, step_default, step_run}
use dacrs.Vm.Closure.Writes.{Writes, start}
use dacrs.Vm.Step.High.{step_run_f0}
use dacrs.Vm.Closure.Rows.{IsLocal, row_laws, step_run_f0-IsLocal, step_run_f0-IsLocal_rest}

step_rows-IsLocal : All (All (IsLocal true)) step_rows
unfolding step_rows
step_rows-IsLocal = search (row_laws, step_run_f0-IsLocal) depth 20

step_default-IsLocal : (ext : Bool) → IsLocal ext step_default
unfolding step_default
step_default-IsLocal ext vm = start

pub step_run-Writes : (code : ℕ) (vm : Vm) → Writes true vm (step_run code vm)
unfolding step_run
step_run-Writes code vm =
    get_or-All (IsLocal true) (get_or step_rows (shr code 4) []) (low_bits code 4) step_default
      (get_or-All (All (IsLocal true)) step_rows (shr code 4) [] step_rows-IsLocal tt)
      (step_default-IsLocal true) vm

-- The rows but the last store nothing in the external memory.
step_run_f0-IsLocal_never : ◌≢◌ {A = ℕ} 15 15 → All (IsLocal false) step_run_f0
step_run_f0-IsLocal_never ne = absurd (ne refl)

step_rows-IsLocal_internal : AllFrom (λ h row. h ≢ 15 → All (IsLocal false) row) 0 step_rows
unfolding step_rows
step_rows-IsLocal_internal = search (row_laws, step_run_f0-IsLocal_never) depth 40

-- MOVX @DPTR,A and MOVX @Ri,A.
abbrev pub IsExStore : ℕ → Type 0
IsExStore code = (code ≡ 0xF0) ⊎ (code ≡ 0xF2) ⊎ (code ≡ 0xF3)

row_f0-internal :
    (code : ℕ)
    → ¬ (IsExStore code)
    → shr code 4 ≡ 15
    → IsLocal false (get_or (get_or step_rows (shr code 4) []) (low_bits code 4) step_default)
unfolding step_rows
row_f0-internal code n e = rw e (
    step_run_f0-IsLocal_rest (low_bits code 4) (λ p. n (inl (omega arith)))
      (λ p. n (inr (inl (omega arith)))) (λ p. n (inr (inr (omega arith)))))

pub step_run-Writes_internal :
    (code : ℕ) (vm : Vm) → ¬ (IsExStore code) → Writes false vm (step_run code vm)
unfolding step_run
step_run-Writes_internal code vm n = elim (ℕ_discrete (shr code 4) 15) [
  | yes e ↦ row_f0-internal code n e vm
  | no ne ↦
      get_or-All (IsLocal false) (get_or step_rows (shr code 4) []) (low_bits code 4) step_default
        (get_or-AllFrom (λ h row. h ≢ 15 → All (IsLocal false) row) 0 step_rows (shr code 4) []
          step_rows-IsLocal_internal (λ j _. tt) (λ e. ne (omega arith)))
        (step_default-IsLocal false) vm
]
