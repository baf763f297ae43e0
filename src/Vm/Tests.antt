-- ===== src/Vm/Tests.antt =====
-- The theorems on the machine at concrete programs and states, and runs of the model.
mod Values
use dacrs.Base.{
  ℕ, ◌<◌, ◌≡◌, ◌⊎◌, refl, arith, Option, none, some, List, [], ◌∷◌, get_or, get_or-All, All, ◌==◌,
  if◌then◌else◌,
}
use dacrs.Base.Int.{pos, ◌+ℤ◌}
use dacrs.Base.Words.{Mem, IsByteMem}
use dacrs.Vm.State.{
  Vm, sys_sp, get_ram_data, get_1_opcode, get_2_opcode, get_opcode, get_ex_ram, advance, set_pc,
  set_sp, set_ram_data_at,
}
use dacrs.Vm.Step.{step_run, step_rows}
use dacrs.Vm.Step.Low.{step_run_00}
use dacrs.Vm.Ops.Arith.{md_add, md_addc, md_subb}
use dacrs.Vm.Ops.Move.{opcode_00_nop, opcode_c0_push_direct, opcode_d0_pop_direct}
use dacrs.Vm.Ops.Flow.{
  acall, opcode_02_ljmp_addr16, opcode_12_lcall_addr16, opcode_22_ret, opcode_32_reti,
}
use dacrs.Vm.Safety.{IsValid, step_run-IsValid, step_run-exe_file, step_run-ex_ram}
use dacrs.Vm.Alu.{AluInput, Added, Subtracted}
use dacrs.Vm.Alu.Add.{md_add-Added, md_addc-Added}
use dacrs.Vm.Alu.Subtract.{md_subb-Subtracted}
use dacrs.Vm.Stack.{ret-lcall, ret-acall, reti-ret, pop-push}
use dacrs.Vm.Api.{failed, RetDefine, call_external_func}
use dacrs.Vm.Run.{Verdict, returned, run, run_loop, run_round, limit_check}
use dacrs.Vm.Run.Limits.{FreeCall, run-Ends}
use dacrs.Vm.Run.Bounds.{InLimits, run-InLimits}
use dacrs.Vm.Run.Spin.{run-Spins}

-- A memory from its first bytes, the rest zero.
abbrev image : List ℕ → Mem
image bytes i = get_or bytes i 0

image-IsByteMem : (bytes : List ℕ) → All (λ x. x < 256) bytes → IsByteMem (image bytes)
image-IsByteMem bytes h i = get_or-All (λ x. x < 256) bytes i 0 h (omega arith)

-- PUSH 0x00; POP 0x01, with 7 in R0, the stack from 0x20 on, and A and CY set.
abbrev sfrs : Mem
sfrs i = if i == 0x81 then 0x20 else (if i == 0xE0 then 0xF0 else (if i == 0xD0 then 0x80 else 0))

abbrev machine : Vm
machine = record {
  chip_ram = image (7 ∷ []);
  chip_sfr = sfrs;
  ex_ram = image [];
  exe_file = image (0xC0 ∷ 0x00 ∷ 0xD0 ∷ 0x01 ∷ []);
  pc = 0;
}

machine-IsValid : IsValid machine
machine-IsValid = record {
  ram_bytes = image-IsByteMem (7 ∷ []) (omega arith);
  sfr_bytes = λ i. ground arith;
  ex_bytes = λ i. omega arith;
  exe_bytes = image-IsByteMem (0xC0 ∷ 0x00 ∷ 0xD0 ∷ 0x01 ∷ []) (omega arith);
  pc_word = omega arith;
}

machine-AluInput : AluInput 0x90 machine
machine-AluInput = record {
  a_byte = omega arith;
  psw_byte = omega arith;
  operand_byte = omega arith;
}

step_run-IsValid_instance : IsValid (step_run 0xC0 machine)
step_run-IsValid_instance = step_run-IsValid 0xC0 machine machine-IsValid

step_run-exe_file_instance : (step_run 0xF0 machine).exe_file ≡ machine.exe_file
step_run-exe_file_instance = step_run-exe_file 0xF0 machine

step_run-ex_ram_example : (step_run 0x84 machine).ex_ram ≡ machine.ex_ram
step_run-ex_ram_example = step_run-ex_ram 0x84 machine (λ h. omega arith)

md_add-Added_instance : Added 0xF0 0x90 0 (md_add 0x90 machine)
md_add-Added_instance = md_add-Added 0x90 machine machine-AluInput

md_addc-Added_instance : Added 0xF0 0x90 1 (md_addc 0x90 machine)
md_addc-Added_instance = md_addc-Added 0x90 machine machine-AluInput

md_subb-Subtracted_instance : Subtracted 0xF0 0x90 1 (md_subb 0x90 machine)
md_subb-Subtracted_instance = md_subb-Subtracted 0x90 machine machine-AluInput

ret-lcall_example :
    ((opcode_22_ret (opcode_12_lcall_addr16 machine)).pc ≡ 3)
    × (sys_sp (opcode_22_ret (opcode_12_lcall_addr16 machine)) ≡ 0x20)
ret-lcall_example = ret-lcall machine machine-IsValid

ret-acall_instance :
    ((opcode_22_ret (acall 0x11 machine)).pc ≡ 2)
    × (sys_sp (opcode_22_ret (acall 0x11 machine)) ≡ 0x20)
ret-acall_instance = ret-acall 0x11 machine machine-IsValid

reti-ret_example : opcode_32_reti machine ≡ advance 1 (opcode_22_ret machine)
reti-ret_example = reti-ret machine (omega arith) (omega arith)

pop-push_instance :
    (get_ram_data 0x01 (opcode_d0_pop_direct (opcode_c0_push_direct machine)) ≡ 7)
    × (sys_sp (opcode_d0_pop_direct (opcode_c0_push_direct machine)) ≡ 0x20)
unfolding opcode_c0_push_direct get_1_opcode get_ram_data advance set_ram_data_at set_sp
pop-push_instance = pop-push machine machine-IsValid (λ h. omega arith) (λ h. omega arith)

-- A host whose calls all fail and cost one step.
abbrev costly : ℕ → Mem → ℕ → Option (RetDefine × ℕ)
costly m mem env = some (record { status = failed; step = pos 1; results = [] }, env)

-- Two NOPs and a jump to 0x0008, with 1 at the address of the result.
abbrev leaving : Vm
leaving = record machine {
  exe_file = image (0x00 ∷ 0x00 ∷ 0x02 ∷ 0x00 ∷ 0x08 ∷ []);
  ex_ram = λ i. if i == 0xEFFD then 1 else 0;
}

leaving-run : run costly 10 10 leaving (some 0) ≡ some (returned (pos 3))
unfolding run run_loop run_round step_run step_rows step_run_00 get_opcode get_ex_ram opcode_00_nop
    advance opcode_02_ljmp_addr16 get_1_opcode get_2_opcode set_pc limit_check ◌+ℤ◌
leaving-run = refl

run-InLimits_example : InLimits 10 (pos 3)
run-InLimits_example = run-InLimits costly 10 10 leaving (some 0) (pos 3) (omega arith) leaving-run

run-Ends_example :
    ((v : Verdict) × (run (call_external_func costly) 1000 1000 leaving (some 0) ≡ some v))
    ⊎ FreeCall (call_external_func costly) 1000 leaving (pos 0) 0
run-Ends_example =
    run-Ends (call_external_func costly) 1000 1000 leaving 0 (omega arith) (omega arith)
      (omega arith)

-- SJMP to itself at 0x0012; the method is ADD_MONEY.
abbrev spinning : Vm
spinning = record machine {
  exe_file = λ i. if i == 0x12 then 0x80 else (if i == 0x13 then 0xFE else 0);
  ex_ram = λ i. if i == 0xEFFD then 2 else 0;
  pc = 0x12;
}

run-Spins_example : run (call_external_func costly) 500 1000 spinning (some 0) ≡ none
run-Spins_example =
    run-Spins costly 500 1000 spinning 0
      (record {
        at_call = refl;
        sjmp = refl;
        to_itself = refl;
        method_low = omega arith;
        method_high = refl;
        no_para_low = refl;
        no_para_high = refl;
      })
      (omega arith) (omega arith)
