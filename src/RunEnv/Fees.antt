-- ===== src/RunEnv/Fees.antt =====
-- The step limit that a transaction pays for, and what the run of its contract is charged
-- (src/vm/vmrunevn.cpp: `run`).
use dacrs.Base.{
  ℕ, ◌-◌, ◌*◌, ◌/◌, ◌%◌, ◌^◌, ◌<◌, ◌≤◌, ◌≡◌, arith, Option, none, some, ltb, leb, ◌==◌,
  if◌then◌else◌,
}
use native.Mathlib.Nat.{mul-le-mul_right, mul-div-le}
use dacrs.Base.Int.{pos}
use dacrs.Base.Words.{Mem}
use dacrs.Vm.State.{Vm}
use dacrs.Vm.Api.{RetDefine}
use dacrs.Vm.Run.{returned, run, max_block_run_step}
use dacrs.Vm.Run.Bounds.{run-InLimits}

-- `ullMaxStep`, or a refusal: no fuel rate, or a fee that is not above the smallest one.
unfoldable pub max_step : ℕ → ℕ → ℕ → Option ℕ
max_step min_tx_fee fees burn_factor =
    let steps = (fees - min_tx_fee) / burn_factor * 100 % 2 ^ 64 in
    if burn_factor == 0
    then none
    else (if leb fees min_tx_fee
        then none
        else some (if ltb max_block_run_step steps then max_block_run_step else steps))

max_step-bound :
    (min_tx_fee fees burn_factor limit : ℕ)
    → max_step min_tx_fee fees burn_factor ≡ some limit
    → (limit ≤ (fees - min_tx_fee) / burn_factor * 100)
      × (limit ≤ max_block_run_step)
      × (min_tx_fee < fees)
unfolding max_step
max_step-bound min_tx_fee fees burn_factor limit h = ground arith

affordable :
    (steps paid burn_factor : ℕ)
    → steps ≤ paid / burn_factor * 100
    → steps * burn_factor ≤ paid * 100
affordable steps paid burn_factor h = omega (
  arith,
  mul-le-mul_right burn_factor h,
  mul-div-le paid burn_factor,
  regrouped (paid / burn_factor) burn_factor,
)
  where
    regrouped : (q b : ℕ) → q * 100 * b ≡ b * q * 100
    regrouped q b = grind arith

module _ {E : Type 0} (call : ℕ → Mem → E → Option (RetDefine × E)) where
  -- A run under the limit that a fee pays for is charged, at the fuel rate, at most a hundred times
  -- what the fee exceeds the smallest one by, and it takes no more steps than a block may.
  pub run-max_step :
      (fuel min_tx_fee fees burn_factor limit steps : ℕ) (vm : Vm) (env : Option E)
      → max_step min_tx_fee fees burn_factor ≡ some limit
      → run call fuel limit vm env ≡ some (returned (pos steps))
      → (steps * burn_factor ≤ (fees - min_tx_fee) * 100) × (steps ≤ max_block_run_step)
  run-max_step fuel min_tx_fee fees burn_factor limit steps vm env h e =
      let (paid, block, more) = max_step-bound min_tx_fee fees burn_factor limit h in
      let within = run-InLimits call fuel limit vm env (pos steps) (omega arith) e in
      (affordable steps (fees - min_tx_fee) burn_factor (omega arith), omega arith)
