-- ===== src/Vm/Stack.antt =====
-- Calls and returns, PUSH and POP (src/vm/vm8051.cpp and src/vm/vm8051.h): the stack lies in the
-- internal memory, SP and the accumulator in the special function registers.
use dacrs.Base.{ℕ, ◌+◌, ◌*◌, ◌%◌, ◌<◌, ◌≤◌, ◌≡◌, ◌≢◌, refl, ◌∙◌, arith, bit_or}
use dacrs.Base.Words.{int16u, low_bits, shr}
use dacrs.Base.Bits.{bit_or-bytes, bit_or-bytes_swapped}
use dacrs.Vm.State.{
  Vm, sp_addr, get_ram_data, set_ram_data, sys_sp, get_1_opcode, set_sp, set_ram_data_at,
  get_ram_data_at, set_pc, advance,
}
use dacrs.Vm.Ops.Move.{opcode_c0_push_direct, opcode_d0_pop_direct}
use dacrs.Vm.Closure.Writes.{start, advance-Writes}
use dacrs.Vm.Closure.Flow.{acall-Writes, opcode_12_lcall_addr16-Writes}
use dacrs.Vm.Safety.{IsValid, Writes-IsValid}
use dacrs.Vm.Ops.Flow.{push_pc, opcode_12_lcall_addr16, opcode_22_ret, opcode_32_reti, acall}

-- The return address, read from the two bytes on top of the stack.
pub top_address : Vm → ℕ
top_address vm = vm.chip_ram (sys_sp vm) * 256 + vm.chip_ram ((sys_sp vm + 255) % 256)

-- The two assignments to PC in RET put the bytes together.
return_pc :
    (pc hi lo : ℕ)
    → hi < 256
    → lo < 256
    → int16u (bit_or (shr (int16u (bit_or (low_bits pc 8) (hi * 256))) 8 * 256) lo) ≡ hi * 256 + lo
return_pc pc hi lo h l =
    rw (bit_or-bytes_swapped hi (low_bits pc 8) (omega arith))
      (rw (bit_or-bytes (shr (int16u (hi * 256 + low_bits pc 8)) 8) lo l) (omega arith))

-- RET takes its address from the stack and drops both bytes.
pub opcode_22_ret-top_address :
    (vm : Vm)
    → vm.chip_ram (sys_sp vm) < 256
    → vm.chip_ram ((sys_sp vm + 255) % 256) < 256
    → ((opcode_22_ret vm).pc ≡ top_address vm)
      × (sys_sp (opcode_22_ret vm) ≡ (sys_sp vm + 254) % 256)
unfolding opcode_22_ret top_address set_sp set_pc get_ram_data_at
opcode_22_ret-top_address vm h l = (return_pc vm.pc (vm.chip_ram (sys_sp vm)) _ h l, omega arith)

-- A call leaves PC on top of the stack, two bytes higher.
pub push_pc-top_address :
    (vm : Vm)
    → vm.pc < 65536
    → (top_address (push_pc vm) ≡ vm.pc) × (sys_sp (push_pc vm) ≡ (sys_sp vm + 2) % 256)
unfolding push_pc top_address set_sp set_ram_data_at
push_pc-top_address vm h = (ground arith, omega arith)

-- Where the call goes is not on the stack.
set_pc-top_address :
    (target : ℕ) (vm : Vm)
    → (top_address (set_pc target vm) ≡ top_address vm) × (sys_sp (set_pc target vm) ≡ sys_sp vm)
unfolding set_pc top_address
set_pc-top_address target vm = (refl, refl)

-- RET behind a call, wherever the call went.
ret-set_pc-push_pc :
    (target : ℕ) (vm : Vm)
    → IsValid vm
    → IsValid (set_pc target (push_pc vm))
    → ((opcode_22_ret (set_pc target (push_pc vm))).pc ≡ vm.pc)
      × (sys_sp (opcode_22_ret (set_pc target (push_pc vm))) ≡ sys_sp vm)
ret-set_pc-push_pc target vm v w =
    let returned = opcode_22_ret-top_address _ (w.ram_bytes _) (w.ram_bytes _) in
    let jumped = set_pc-top_address target (push_pc vm) in
    let pushed = push_pc-top_address vm v.pc_word in
    (
      returned.0 ∙ jumped.0 ∙ pushed.0,
      omega (arith, returned.1, jumped.1, pushed.1, v.sfr_bytes 0x81),
    )

advance-IsValid : (n : ℕ) (vm : Vm) → IsValid vm → IsValid (advance n vm)
advance-IsValid n vm = Writes-IsValid (advance-Writes n start)

-- RET behind LCALL goes on at the instruction after the call, with SP as it was.
pub ret-lcall :
    (vm : Vm)
    → IsValid vm
    → ((opcode_22_ret (opcode_12_lcall_addr16 vm)).pc ≡ (vm.pc + 3) % 65536)
      × (sys_sp (opcode_22_ret (opcode_12_lcall_addr16 vm)) ≡ sys_sp vm)
unfolding opcode_12_lcall_addr16 advance set_pc
ret-lcall vm v =
    ret-set_pc-push_pc _ (advance 3 vm) (advance-IsValid 3 vm v)
      (Writes-IsValid (opcode_12_lcall_addr16-Writes vm) v)

-- RET behind ACALL too, two bytes after the call.
pub ret-acall :
    (opcode : ℕ) (vm : Vm)
    → IsValid vm
    → ((opcode_22_ret (acall opcode vm)).pc ≡ (vm.pc + 2) % 65536)
      × (sys_sp (opcode_22_ret (acall opcode vm)) ≡ sys_sp vm)
unfolding acall advance set_pc
ret-acall opcode vm v =
    ret-set_pc-push_pc _ (advance 2 vm) (advance-IsValid 2 vm v)
      (Writes-IsValid (acall-Writes opcode vm) v)

-- While SP lies in 1 to 0x7F, RETI does what RET does and then steps over one byte.
pub reti-ret :
    (vm : Vm) → 1 ≤ sys_sp vm → sys_sp vm ≤ 0x7F → opcode_32_reti vm ≡ advance 1 (opcode_22_ret vm)
unfolding opcode_32_reti opcode_22_ret get_ram_data get_ram_data_at set_pc set_sp
reti-ret vm h l = ground arith

-- POP behind PUSH moves a byte: unless one of the operands is SP itself, the byte arrives and SP
-- is as it was.
pub pop-push :
    (vm : Vm)
    → IsValid vm
    → get_1_opcode vm ≢ sp_addr
    → get_1_opcode (opcode_c0_push_direct vm) ≢ sp_addr
    → (get_ram_data
          (get_1_opcode (opcode_c0_push_direct vm))
          (opcode_d0_pop_direct (opcode_c0_push_direct vm))
        ≡ get_ram_data (get_1_opcode vm) vm)
      × (sys_sp (opcode_d0_pop_direct (opcode_c0_push_direct vm)) ≡ sys_sp vm)
unfolding opcode_c0_push_direct opcode_d0_pop_direct get_ram_data set_ram_data get_ram_data_at
    set_sp advance get_1_opcode
pop-push vm v n m =
    ground (arith, v.ram_bytes (get_1_opcode vm), v.sfr_bytes (get_1_opcode vm), v.sfr_bytes 0x81)
