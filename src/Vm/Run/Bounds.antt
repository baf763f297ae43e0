-- ===== src/Vm/Run/Bounds.antt =====
-- What `CVm8051::run` can return: -1, 0, or a number of steps within both limits.
use dacrs.Base.{
  ℕ, zero, suc, ◌^◌, ◌<◌, ◌≡◌, ◌⊎◌, inl, inr, refl, ◌∙◌, arith, Bool, true, false, Option, none,
  some, List, ◌==◌, ==_ne, Bool-cases, if◌then◌else◌,
}
use dacrs.Base.Int.{ℤ, pos, negsuc, ◌+ℤ◌, ◌≤ℤ◌}
use dacrs.Base.Words.{Mem}
use dacrs.Vm.State.{Vm, get_opcode, get_ex_ram}
use dacrs.Vm.Step.{step_run}
use dacrs.Vm.Api.{Status, failed, done, aborted, RetDefine}
use dacrs.Vm.Run.{
  Verdict, returned, Round, next, stop, over_limit, max_block_run_step, after_results, after_status,
  after_call, limit_check, run_round, run_loop, run,
}
use dacrs.Vm.Run.Limits.{over_limit-false, answer, run_round-next}

-- An error, a failure, or a count.
abbrev Outcome : ℤ → ℤ → Type 0
Outcome step r = (r ≡ negsuc 0) ⊎ (r ≡ pos 0) ⊎ (r ≡ step +ℤ pos 1)

-- Within the limit of a block and the limit of the transaction.
abbrev pub InLimits : ℕ → ℤ → Type 0
InLimits maxstep r = (r ≤ℤ pos max_block_run_step) × (r ≤ℤ pos maxstep)

module _ {E : Type 0} (call : ℕ → Mem → E → Option (RetDefine × E)) where
  limit_check-stop :
      (maxstep : ℕ) (vm : Vm) (step : ℤ) (env : E) {r : ℤ}
      → limit_check call maxstep vm step env ≡ stop (returned r)
      → r ≡ negsuc 0
  unfolding limit_check
  limit_check-stop maxstep vm step env e = ground arith

  after_results-stop :
      (maxstep : ℕ) (vm : Vm) (step : ℤ) (env : E) (m : Option Mem) {r : ℤ}
      → after_results call maxstep vm step env m ≡ stop (returned r)
      → r ≡ negsuc 0
  unfolding after_results
  after_results-stop maxstep vm step env none e = cc
  after_results-stop maxstep vm step env (some m) e = limit_check-stop maxstep _ step env e

  after_status-stop :
      (status : Status) (maxstep : ℕ) (vm : Vm) (step : ℤ) (results : List (List ℕ)) (env : E)
      {r : ℤ}
      → after_status call status maxstep vm step results env ≡ stop (returned r)
      → r ≡ negsuc 0
  unfolding after_status
  after_status-stop done maxstep vm step results env e = after_results-stop maxstep vm step env _ e
  after_status-stop aborted maxstep vm step results env e = cc
  after_status-stop failed maxstep vm step results env e = limit_check-stop maxstep vm step env e

  after_call-stop :
      (maxstep : ℕ) (vm : Vm) (step : ℤ) (answer : Option (RetDefine × E)) {r : ℤ}
      → after_call call maxstep vm step answer ≡ stop (returned r)
      → r ≡ negsuc 0
  unfolding after_call
  after_call-stop maxstep vm step none e = cc
  after_call-stop maxstep vm step (some r) e =
      after_status-stop r.0.status maxstep _ _ r.0.results r.1 e

  exit-Outcome :
      (b : Bool) (step : ℤ) {r : ℤ}
      → ◌≡◌ {A = Round E} (stop (returned (if b then step +ℤ pos 1 else pos 0))) (stop (returned r))
      → Outcome step r
  exit-Outcome true step e = inr (inr (ground arith))
  exit-Outcome false step e = inr (inl (ground arith))

  run_round-stop :
      (maxstep : ℕ) (vm : Vm) (step : ℤ) (env : E) {r : ℤ}
      → run_round call maxstep vm step env ≡ stop (returned r)
      → Outcome step r
  unfolding run_round answer
  run_round-stop maxstep vm step env e =
      let vm1 = step_run (get_opcode vm) vm in
      let step1 = step +ℤ pos 1 in
      elim (Bool-cases (vm1.pc == 0x0012)) [
        | inl p ↦
            inl (after_call-stop maxstep vm1 step1 (answer call vm env) (rw (run_round, p) at e))
        | inr p ↦ elim (Bool-cases (vm1.pc == 0x0008)) [
          | inl q ↦ exit-Outcome (get_ex_ram 0xEFFD vm1 == 0x01) step (rw (run_round, p, q) at e)
          | inr q ↦ inl (limit_check-stop maxstep vm1 step1 env (rw (run_round, p, q) at e))
        ]
      ]

  Outcome-InLimits :
      (maxstep : ℕ) (step r : ℤ)
      → maxstep < 2 ^ 63
      → over_limit maxstep step ≡ false
      → Outcome step r
      → InLimits maxstep r
  Outcome-InLimits maxstep step r h below (inl p) = rw p (omega arith)
  Outcome-InLimits maxstep step r h below (inr (inl p)) = rw p (omega arith)
  Outcome-InLimits maxstep step r h below (inr (inr p)) =
      rw p (over_limit-false maxstep step h below)

  stopped : {v w : Verdict} → some v ≡ some w → ◌≡◌ {A = Round E} (stop v) (stop w)
  stopped e = cc

  run_loop-InLimits :
      (fuel maxstep : ℕ) (vm : Vm) (step : ℤ) (env : E) (r : ℤ)
      → maxstep < 2 ^ 63
      → over_limit maxstep step ≡ false
      → run_loop call fuel maxstep vm step env ≡ some (returned r)
      → InLimits maxstep r
  unfolding run_loop
  run_loop-InLimits zero maxstep vm step env r h below e = cc
  run_loop-InLimits (suc fuel) maxstep vm step env r h below e =
      round_cases (run_round call maxstep vm step env) refl (run_loop-InLimits fuel maxstep)
    where
      round_cases :
          (round : Round E)
          → run_round call maxstep vm step env ≡ round
          → ((w : Vm) (s : ℤ) (env' : E) (r : ℤ)
              → maxstep < 2 ^ 63
              → over_limit maxstep s ≡ false
              → run_loop call fuel maxstep w s env' ≡ some (returned r)
              → InLimits maxstep r)
          → InLimits maxstep r
      round_cases (stop v) p rec =
          Outcome-InLimits maxstep step r h below
            (run_round-stop maxstep vm step env (p ∙ stopped (rw (run_loop, p) at e)))
      round_cases (next w s env') p rec =
          rec w s env' r h (run_round-next call maxstep vm step env p).0 (rw (run_loop, p) at e)

  -- With a limit below 2 ^ 63 no number that a run returns is above the limit of a block or above the
  -- limit of the transaction, whatever the calls of the host charge.
  pub run-InLimits :
      (fuel maxstep : ℕ) (vm : Vm) (env : Option E) (r : ℤ)
      → maxstep < 2 ^ 63
      → run call fuel maxstep vm env ≡ some (returned r)
      → InLimits maxstep r
  unfolding run over_limit
  run-InLimits fuel maxstep vm none r h e = ground arith
  run-InLimits fuel zero vm (some env) r h e = ground arith
  run-InLimits fuel (suc n) vm (some env) r h e =
      run_loop-InLimits fuel (suc n) vm (pos 0) env r h (ground arith)
        (rw (run, ==_ne (suc n) 0 (omega arith)) at e)
