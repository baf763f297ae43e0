-- ===== src/Vm/Ops/Flow.antt =====
-- The jumps, calls and returns. `Sys.PC & 0xF800`, `& 0xFF00` and `& 0x00FF` of the 16-bit PC are
-- written by its quotients and remainders.
use dacrs.Base.{ℕ, ◌+◌, ◌*◌, bit_or, ltb, ◌==◌, not, if◌then◌else◌}
use dacrs.Base.Words.{int8u, int16u, low_bits, shr, to_flag}
use dacrs.Vm.State.{
  Vm, get_ram_data, set_ram_data, get_ram_data_at, set_ram_data_at, set_pc, advance, branch,
  get_1_opcode, get_2_opcode, get_rges, set_rges, sys_a, sys_sp, sys_dptr, psw_cy, set_cy, set_sp,
  get_bit_flag, clr_bit_flag,
}

unfoldable pub ajmp : ℕ → ℕ → Vm → Vm
ajmp opcode value vm =
    let tmppc = int16u (vm.pc + 2) in
    set_pc (bit_or (shr tmppc 11 * 2048) (bit_or (low_bits (shr opcode 5) 3 * 256) value)) vm

-- Both bytes of PC go onto the stack, the low one first.
unfoldable pub push_pc : Vm → Vm
push_pc vm =
    let vm1 = set_sp (sys_sp vm + 1) vm in
    let vm2 = set_ram_data_at (sys_sp vm1) (low_bits vm.pc 8) vm1 in
    let vm3 = set_sp (sys_sp vm2 + 1) vm2 in set_ram_data_at (sys_sp vm3) (shr vm.pc 8) vm3

unfoldable pub acall : ℕ → Vm → Vm
unfolding push_pc
acall opcode vm =
    let value = get_1_opcode vm in
    let vm1 = push_pc (advance 2 vm) in
    set_pc (bit_or (shr vm1.pc 11 * 2048) (bit_or (shr opcode 5 * 256) value)) vm1

unfoldable pub opcode_01_ajmp_addr11 : ℕ → Vm → Vm
unfolding ajmp
opcode_01_ajmp_addr11 opcode vm = ajmp opcode (get_1_opcode vm) vm

unfoldable pub opcode_02_ljmp_addr16 : Vm → Vm
opcode_02_ljmp_addr16 vm = set_pc (bit_or (get_1_opcode vm * 256) (get_2_opcode vm)) vm

unfoldable pub opcode_12_lcall_addr16 : Vm → Vm
unfolding push_pc
opcode_12_lcall_addr16 vm =
    let addr = bit_or (get_2_opcode vm) (get_1_opcode vm * 256) in
    set_pc addr (push_pc (advance 3 vm))

unfoldable pub opcode_22_ret : Vm → Vm
opcode_22_ret vm =
    let temp = get_ram_data_at (sys_sp vm) vm in
    let vm1 = set_pc (bit_or (low_bits vm.pc 8) (temp * 256)) vm in
    let vm2 = set_sp (sys_sp vm1 + 255) vm1 in
    let temp2 = get_ram_data_at (sys_sp vm2) vm2 in
    let vm3 = set_pc (bit_or (shr vm2.pc 8 * 256) temp2) vm2 in set_sp (sys_sp vm3 + 255) vm3

-- Unlike RET it reads by direct addressing, and steps over one byte.
unfoldable pub opcode_32_reti : Vm → Vm
opcode_32_reti vm =
    let temp = get_ram_data (sys_sp vm) vm in
    let vm1 = set_pc (bit_or (low_bits vm.pc 8) (temp * 256)) vm in
    let vm2 = set_sp (sys_sp vm1 + 255) vm1 in
    let temp2 = get_ram_data (sys_sp vm2) vm2 in
    let vm3 = set_pc (bit_or (shr vm2.pc 8 * 256) temp2) vm2 in
    advance 1 (set_sp (sys_sp vm3 + 255) vm3)

unfoldable pub opcode_10_jbc_bit_rel : Vm → Vm
opcode_10_jbc_bit_rel vm =
    let addr = get_1_opcode vm in
    let rel = get_2_opcode vm in
    let vm1 = advance 3 vm in
    if get_bit_flag addr vm1 then branch rel (clr_bit_flag addr vm1) else vm1

unfoldable pub opcode_20_jb_bit_rel : Vm → Vm
opcode_20_jb_bit_rel vm =
    let vm1 = advance 3 vm in
    if get_bit_flag (get_1_opcode vm) vm1 then branch (get_2_opcode vm) vm1 else vm1

unfoldable pub opcode_30_jnb_bit_rel : Vm → Vm
opcode_30_jnb_bit_rel vm =
    let vm1 = advance 3 vm in
    if not (get_bit_flag (get_1_opcode vm) vm1) then branch (get_2_opcode vm) vm1 else vm1

unfoldable pub opcode_40_jc_rel : Vm → Vm
opcode_40_jc_rel vm =
    let vm1 = advance 2 vm in if not (psw_cy vm1 == 0) then branch (get_1_opcode vm) vm1 else vm1

unfoldable pub opcode_50_jnc_rel : Vm → Vm
opcode_50_jnc_rel vm =
    let vm1 = advance 2 vm in if psw_cy vm1 == 0 then branch (get_1_opcode vm) vm1 else vm1

unfoldable pub opcode_60_jz_rel : Vm → Vm
opcode_60_jz_rel vm =
    let vm1 = advance 2 vm in if sys_a vm1 == 0 then branch (get_1_opcode vm) vm1 else vm1

unfoldable pub opcode_70_jnz_rel : Vm → Vm
opcode_70_jnz_rel vm =
    let vm1 = advance 2 vm in if not (sys_a vm1 == 0) then branch (get_1_opcode vm) vm1 else vm1

unfoldable pub opcode_73_jmp_a_dptr : Vm → Vm
opcode_73_jmp_a_dptr vm = let vm1 = advance 1 vm in set_pc (sys_a vm1 + sys_dptr vm1) vm1

unfoldable pub opcode_80_sjmp_rel : Vm → Vm
opcode_80_sjmp_rel vm = branch (get_1_opcode vm) (advance 2 vm)

-- Compare, jump if not equal, and set the carry if less.
unfoldable pub cjne : ℕ → ℕ → ℕ → Vm → Vm
cjne value operand rel vm =
    let vm1 = if not (value == operand) then branch rel vm else vm in
    set_cy (to_flag (ltb value operand)) vm1

unfoldable pub opcode_b4_cjne_a_data_rel : Vm → Vm
unfolding cjne
opcode_b4_cjne_a_data_rel vm = cjne (sys_a vm) (get_1_opcode vm) (get_2_opcode vm) (advance 3 vm)

unfoldable pub opcode_b5_cjne_a_direct_rel : Vm → Vm
unfolding cjne
opcode_b5_cjne_a_direct_rel vm =
    cjne (sys_a vm) (get_ram_data (get_1_opcode vm) vm) (get_2_opcode vm) (advance 3 vm)

unfoldable pub opcode_b6_cjne_ri_data_rel : ℕ → Vm → Vm
unfolding cjne
opcode_b6_cjne_ri_data_rel i vm =
    cjne (get_ram_data_at (get_rges i vm) vm) (get_1_opcode vm) (get_2_opcode vm) (advance 3 vm)

unfoldable pub opcode_b8_cjne_rn_data_rel : ℕ → Vm → Vm
unfolding cjne
opcode_b8_cjne_rn_data_rel n vm =
    cjne (get_rges n vm) (get_1_opcode vm) (get_2_opcode vm) (advance 3 vm)

unfoldable pub opcode_d5_djnz_direct_rel : Vm → Vm
opcode_d5_djnz_direct_rel vm =
    let addr = get_1_opcode vm in
    let value = int8u (get_ram_data addr vm + 255) in
    let vm1 = advance 3 (set_ram_data addr value vm) in
    if not (value == 0) then branch (get_2_opcode vm) vm1 else vm1

unfoldable pub opcode_d8_djnz_rn_rel : ℕ → Vm → Vm
opcode_d8_djnz_rn_rel n vm =
    let vm1 = advance 2 vm in
    let vm2 = set_rges n (get_rges n vm1 + 255) vm1 in
    if not (get_rges n vm2 == 0) then branch (get_1_opcode vm) vm2 else vm2
