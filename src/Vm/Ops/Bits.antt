-- ===== src/Vm/Ops/Bits.antt =====
-- The instructions on single bits: SETB, CLR, CPL, MOV, ORL and ANL with the carry.
use dacrs.Base.{◌-◌, bit_and, bit_or, ◌==◌, not, if◌then◌else◌}
use dacrs.Base.Words.{to_flag}
use dacrs.Vm.State.{
  Vm, advance, get_1_opcode, psw_cy, set_cy, get_bit_flag, set_bit_flag, clr_bit_flag,
}

unfoldable pub opcode_72_orl_c_direct : Vm → Vm
opcode_72_orl_c_direct vm =
    advance 2 (set_cy (bit_or (psw_cy vm) (to_flag (get_bit_flag (get_1_opcode vm) vm))) vm)

unfoldable pub opcode_82_anl_c_bit : Vm → Vm
opcode_82_anl_c_bit vm =
    advance 2 (set_cy (bit_and (psw_cy vm) (to_flag (get_bit_flag (get_1_opcode vm) vm))) vm)

unfoldable pub opcode_92_mov_bit_c : Vm → Vm
opcode_92_mov_bit_c vm =
    let temp = get_1_opcode vm in
    advance 2 (if psw_cy vm == 0 then clr_bit_flag temp vm else set_bit_flag temp vm)

unfoldable pub opcode_a0_orl_c_bit : Vm → Vm
opcode_a0_orl_c_bit vm =
    advance 2 (set_cy (bit_or (psw_cy vm) (to_flag (not (get_bit_flag (get_1_opcode vm) vm)))) vm)

unfoldable pub opcode_a2_mov_c_bit : Vm → Vm
opcode_a2_mov_c_bit vm = advance 2 (set_cy (to_flag (get_bit_flag (get_1_opcode vm) vm)) vm)

unfoldable pub opcode_b0_anl_c_bit_1 : Vm → Vm
opcode_b0_anl_c_bit_1 vm =
    advance 2 (set_cy (bit_and (psw_cy vm) (to_flag (not (get_bit_flag (get_1_opcode vm) vm)))) vm)

unfoldable pub opcode_b2_cpl_bit : Vm → Vm
opcode_b2_cpl_bit vm =
    let temp = get_1_opcode vm in
    advance 2 (if get_bit_flag temp vm then clr_bit_flag temp vm else set_bit_flag temp vm)

-- `~cy` in a field of one bit.
unfoldable pub opcode_b3_cpl_c : Vm → Vm
opcode_b3_cpl_c vm = advance 1 (set_cy (1 - psw_cy vm) vm)

unfoldable pub opcode_c2_clr_bit : Vm → Vm
opcode_c2_clr_bit vm = advance 2 (clr_bit_flag (get_1_opcode vm) vm)

unfoldable pub opcode_c3_clr_c : Vm → Vm
opcode_c3_clr_c vm = advance 1 (set_cy 0 vm)

unfoldable pub opcode_d2_setb_bit : Vm → Vm
opcode_d2_setb_bit vm = advance 2 (set_bit_flag (get_1_opcode vm) vm)

unfoldable pub opcode_d3_setb_c : Vm → Vm
opcode_d3_setb_c vm = advance 1 (set_cy 1 vm)
