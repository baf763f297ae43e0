-- ===== src/Vm/Run/Spin.antt =====
-- A program at a jump to itself at PC 0x0012, under the loop of `CVm8051::run` in src/vm/vm8051.cpp:
-- every round makes a call of the host, and a call that fails is charged no step.
use dacrs.Base.{
  ℕ, zero, suc, ap, lt→ltb, ==_ne, ◌∙◌, ◌*◌, ◌^◌, ◌<◌, ◌≡◌, refl, arith, true, false, bit_or,
  Option, none, some, ◌==◌, if◌then◌else◌, get_or,
}
use dacrs.Base.Int.{ℤ, pos, ◌+ℤ◌, ◌-ℤ◌, int_laws}
use dacrs.Base.Words.{Mem}
use dacrs.Base.Bits.{bit_or-zero}
use dacrs.Vm.State.{Vm, get_opcode, get_ex_ram, branch, advance, get_1_opcode}
use dacrs.Vm.Ops.Flow.{opcode_80_sjmp_rel}
use dacrs.Vm.Step.{step_run, step_rows}
use dacrs.Vm.Step.High.{step_run_80}
use dacrs.Vm.Api.{
  RetDefine, ret_false, call_external_func, amount_funcs, ex_int64_comp_func, ex_int64_mull_func,
  ex_int64_add_func, ex_int64_sub_func, ex_int64_div_func,
}
use dacrs.Vm.Run.{
  returned, next, stop, over_limit, after_call, limit_check, run_round, run_loop, run, method_id,
  clear_share,
}

-- The machine stands at a jump to itself at 0x0012, asks for one of the five amount functions, and
-- has put no parameters into the shared memory.
pub record Spins (vm : Vm) : Type 0 where
  pub at_call : vm.pc ≡ 0x0012
  pub sjmp : vm.exe_file 0x0012 ≡ 0x80
  pub to_itself : vm.exe_file 0x0013 ≡ 0xFE
  pub method_low : vm.ex_ram 0xEFFD < 5
  pub method_high : vm.ex_ram 0xEFFE ≡ 0
  pub no_para_low : vm.ex_ram 0xEFFF ≡ 0
  pub no_para_high : vm.ex_ram 0xF000 ≡ 0

sjmp_to_itself : (vm : Vm) → Spins vm → opcode_80_sjmp_rel vm ≡ vm
unfolding opcode_80_sjmp_rel branch advance get_1_opcode
sjmp_to_itself vm s = ground (arith, ap vm.exe_file s.at_call)

step_run-Spins : (vm : Vm) → Spins vm → step_run (get_opcode vm) vm ≡ vm
unfolding step_run step_rows step_run_80 get_opcode
step_run-Spins vm s =
    ap (λ code. step_run code vm) (ap vm.exe_file s.at_call ∙ s.sjmp) ∙ sjmp_to_itself vm s

-- Without parameters the amount functions refuse.
amount_funcs-refuse :
    (method : ℕ) (m : Mem)
    → method < 5
    → m 0xEFFF ≡ 0
    → m 0xF000 ≡ 0
    → get_or amount_funcs method (λ _ _. none) m 0xEFFF ≡ some ret_false
unfolding amount_funcs ex_int64_comp_func ex_int64_mull_func ex_int64_add_func ex_int64_sub_func
    ex_int64_div_func
amount_funcs-refuse zero m h p q = ground arith
amount_funcs-refuse (suc zero) m h p q = ground arith
amount_funcs-refuse (suc (suc zero)) m h p q = ground arith
amount_funcs-refuse (suc (suc (suc zero))) m h p q = ground arith
amount_funcs-refuse (suc (suc (suc (suc zero)))) m h p q = ground arith
amount_funcs-refuse (suc (suc (suc (suc (suc n))))) m h p q = absurd (omega arith)

method_id-Spins : (vm : Vm) → Spins vm → method_id vm ≡ vm.ex_ram 0xEFFD
unfolding method_id get_ex_ram
method_id-Spins vm s =
    ap (λ high. bit_or (vm.ex_ram 0xEFFD) (high * 256)) s.method_high
    ∙ bit_or-zero (vm.ex_ram 0xEFFD)

-- The call leaves the machine ready for the same round.
cleared-Spins : (vm : Vm) → Spins vm → Spins (record vm { ex_ram = clear_share vm.ex_ram })
unfolding clear_share
cleared-Spins vm s = record {
  at_call = s.at_call;
  sjmp = s.sjmp;
  to_itself = s.to_itself;
  method_low = s.method_low;
  method_high = s.method_high;
  no_para_low = refl;
  no_para_high = refl;
}

at_call_test : (vm : Vm) → Spins vm → (vm.pc == 0x0012) ≡ true
at_call_test vm s = ground arith

module _ {E : Type 0} (other : ℕ → Mem → E → Option (RetDefine × E)) where
  call_external_func-Spins :
      (vm : Vm) (env : E)
      → Spins vm
      → call_external_func other (method_id vm) vm.ex_ram env ≡ some (ret_false, env)
  unfolding call_external_func
  call_external_func-Spins vm env s = rw (method_id-Spins vm s) (
      rw (lt→ltb (vm.ex_ram 0xEFFD) 5 s.method_low) (
        rw
          (amount_funcs-refuse (vm.ex_ram 0xEFFD) vm.ex_ram s.method_low s.no_para_low
            s.no_para_high)
          refl))

  -- A refused call is charged -1 behind the step of its round.
  after_call-refused :
      (maxstep : ℕ) (vm : Vm) (step : ℤ) (env : E)
      → over_limit maxstep step ≡ false
      → after_call (call_external_func other) maxstep vm (step +ℤ pos 1) (some (ret_false, env))
        ≡ next (record vm { ex_ram = clear_share vm.ex_ram }) step env
  unfolding after_call ret_false limit_check
  after_call-refused maxstep vm step env below = rw (charged step) (rw below refl)
    where
      charged : (n : ℤ) → n +ℤ pos 1 +ℤ (pos 0 -ℤ pos 1) ≡ n
      charged n = omega int_laws

  run_round-at_call :
      (maxstep : ℕ) (vm : Vm) (step : ℤ) (env : E)
      → Spins vm
      → run_round (call_external_func other) maxstep vm step env
        ≡ after_call
            (call_external_func other)
            maxstep
            vm
            (step +ℤ pos 1)
            (call_external_func other (method_id vm) vm.ex_ram env)
  unfolding run_round
  run_round-at_call maxstep vm step env s =
      ap
        (λ v.
          if v.pc == 0x0012
          then after_call (call_external_func other) maxstep v (step +ℤ pos 1)
              (call_external_func other (method_id v) v.ex_ram env)
          else (if v.pc == 0x0008
              then stop (returned (if get_ex_ram 0xEFFD v == 0x01 then step +ℤ pos 1 else pos 0))
              else limit_check (call_external_func other) maxstep v (step +ℤ pos 1) env))
        (step_run-Spins vm s)
      ∙ rw (at_call_test vm s) refl

  -- Such a round leaves the step count as it was.
  run_round-Spins :
      (maxstep : ℕ) (vm : Vm) (step : ℤ) (env : E)
      → Spins vm
      → over_limit maxstep step ≡ false
      → run_round (call_external_func other) maxstep vm step env
        ≡ next (record vm { ex_ram = clear_share vm.ex_ram }) step env
  run_round-Spins maxstep vm step env s below =
      run_round-at_call maxstep vm step env s
      ∙ rw (call_external_func-Spins vm env s) (after_call-refused maxstep vm step env below)

  run_loop-Spins :
      (fuel maxstep : ℕ) (vm : Vm) (step : ℤ) (env : E)
      → Spins vm
      → over_limit maxstep step ≡ false
      → run_loop (call_external_func other) fuel maxstep vm step env ≡ none
  unfolding run_loop
  run_loop-Spins zero maxstep vm step env s below = refl
  run_loop-Spins (suc fuel) maxstep vm step env s below =
      rw (run_round-Spins maxstep vm step env s below, run_loop)
        (run_loop-Spins fuel maxstep _ step env (cleared-Spins vm s) below)

  -- With any positive step limit, however many rounds it is given, the run of such a program does
  -- not return, whatever the other functions of the host do.
  pub run-Spins :
      (fuel maxstep : ℕ) (vm : Vm) (env : E)
      → Spins vm
      → 0 < maxstep
      → maxstep < 2 ^ 63
      → run (call_external_func other) fuel maxstep vm (some env) ≡ none
  unfolding run over_limit
  run-Spins fuel maxstep vm env s h lt =
      rw (==_ne maxstep 0 (omega arith))
        (run_loop-Spins fuel maxstep vm (pos 0) env s (ground arith))
