-- ===== src/Vm/Ops/Move.antt =====
-- The data transfers: MOV, MOVX, MOVC, PUSH, POP, XCH, XCHD and NOP.
use dacrs.Base.{ℕ, ◌+◌, ◌-◌, ◌*◌, bit_or, ltb, if◌then◌else◌}
use dacrs.Base.Words.{int16u, low_bits, shr}
use dacrs.Vm.State.{
  Vm, get_ram_data, set_ram_data, get_ram_data_at, set_ram_data_at, get_ex_ram, set_ex_ram, advance,
  get_1_opcode, get_2_opcode, get_rges, set_rges, sys_a, sys_sp, sys_dptr, set_a, set_sp, set_dptr,
}

unfoldable pub opcode_00_nop : Vm → Vm
opcode_00_nop vm = advance 1 vm

-- The reserved opcode does nothing, and leaves PC where it is.
unfoldable pub opcode_a5 : Vm → Vm
opcode_a5 vm = vm

unfoldable pub opcode_74_mov_a_data : Vm → Vm
opcode_74_mov_a_data vm = advance 2 (set_a (get_1_opcode vm) vm)

unfoldable pub opcode_75_mov_direct_data : Vm → Vm
opcode_75_mov_direct_data vm = advance 3 (set_ram_data (get_1_opcode vm) (get_2_opcode vm) vm)

unfoldable pub opcode_76_mov_ri_data : ℕ → Vm → Vm
opcode_76_mov_ri_data i vm = advance 2 (set_ram_data_at (get_rges i vm) (get_1_opcode vm) vm)

unfoldable pub opcode_78_mov_rn_data : ℕ → Vm → Vm
opcode_78_mov_rn_data n vm = advance 2 (set_rges n (get_1_opcode vm) vm)

unfoldable pub opcode_85_mov_direct_direct : Vm → Vm
opcode_85_mov_direct_direct vm =
    let tem = get_ram_data (get_1_opcode vm) vm in advance 3 (set_ram_data (get_2_opcode vm) tem vm)

unfoldable pub opcode_86_mov_direct_ri : ℕ → Vm → Vm
opcode_86_mov_direct_ri i vm =
    advance 2 (set_ram_data (get_1_opcode vm) (get_ram_data_at (get_rges i vm) vm) vm)

unfoldable pub opcode_88_mov_direct_rn : ℕ → Vm → Vm
opcode_88_mov_direct_rn n vm = advance 2 (set_ram_data (get_1_opcode vm) (get_rges n vm) vm)

-- The operand is stored high byte first.
unfoldable pub opcode_90_mov_dptr_data : Vm → Vm
opcode_90_mov_dptr_data vm =
    advance 3 (set_dptr (bit_or (get_2_opcode vm) (get_1_opcode vm * 256)) vm)

unfoldable pub opcode_a6_mov_ri_direct : ℕ → Vm → Vm
opcode_a6_mov_ri_direct i vm =
    advance 2 (set_ram_data_at (get_rges i vm) (get_ram_data (get_1_opcode vm) vm) vm)

unfoldable pub opcode_a8_mov_rn_direct : ℕ → Vm → Vm
opcode_a8_mov_rn_direct n vm = advance 2 (set_rges n (get_ram_data (get_1_opcode vm) vm) vm)

unfoldable pub opcode_e5_mov_a_direct : Vm → Vm
opcode_e5_mov_a_direct vm = advance 2 (set_a (get_ram_data (get_1_opcode vm) vm) vm)

unfoldable pub opcode_e6_mov_a_ri : ℕ → Vm → Vm
opcode_e6_mov_a_ri i vm = advance 1 (set_a (get_ram_data_at (get_rges i vm) vm) vm)

unfoldable pub opcode_e8_mov_a_rn : ℕ → Vm → Vm
opcode_e8_mov_a_rn n vm = advance 1 (set_a (get_rges n vm) vm)

unfoldable pub opcode_f5_mov_direct_a : Vm → Vm
opcode_f5_mov_direct_a vm = advance 2 (set_ram_data (get_1_opcode vm) (sys_a vm) vm)

unfoldable pub opcode_f6_mov_ri_a : ℕ → Vm → Vm
opcode_f6_mov_ri_a i vm = advance 1 (set_ram_data_at (get_rges i vm) (sys_a vm) vm)

unfoldable pub opcode_f8_mov_rn_a : ℕ → Vm → Vm
opcode_f8_mov_rn_a n vm = advance 1 (set_rges n (sys_a vm) vm)

-- MOVX: the external memory.
unfoldable pub opcode_e0_movx_a_dptr : Vm → Vm
opcode_e0_movx_a_dptr vm = advance 1 (set_a (get_ex_ram (sys_dptr vm) vm) vm)

unfoldable pub opcode_e2_movx_a_ri : ℕ → Vm → Vm
opcode_e2_movx_a_ri i vm = advance 1 (set_a (get_ex_ram (get_rges i vm) vm) vm)

unfoldable pub opcode_f0_movx_dptr_a : Vm → Vm
opcode_f0_movx_dptr_a vm = advance 1 (set_ex_ram (sys_dptr vm) (sys_a vm) vm)

unfoldable pub opcode_f2_movx_ri_a : ℕ → Vm → Vm
opcode_f2_movx_ri_a i vm = advance 1 (set_ex_ram (get_rges i vm) (sys_a vm) vm)

-- MOVC: the program memory. Past MAX_ROM, 0xFFFF, it reads 0.
unfoldable pub opcode_83_movc_a_pc : Vm → Vm
opcode_83_movc_a_pc vm =
    let vm1 = advance 1 vm in
    let addr = int16u (vm1.pc + sys_a vm1) in
    set_a (if ltb (0xFFFF - sys_a vm1) vm1.pc then 0 else vm1.exe_file addr) vm1

unfoldable pub opcode_93_movc_a_dptr : Vm → Vm
opcode_93_movc_a_dptr vm =
    let temp = vm.exe_file (int16u (sys_a vm + sys_dptr vm)) in
    advance 1 (set_a (if ltb (0xFFFF - sys_a vm) (sys_dptr vm) then 0 else temp) vm)

unfoldable pub opcode_c0_push_direct : Vm → Vm
opcode_c0_push_direct vm =
    let vm1 = set_sp (sys_sp vm + 1) vm in
    advance 2 (set_ram_data_at (sys_sp vm1) (get_ram_data (get_1_opcode vm1) vm1) vm1)

unfoldable pub opcode_d0_pop_direct : Vm → Vm
opcode_d0_pop_direct vm =
    let vm1 = set_ram_data (get_1_opcode vm) (get_ram_data_at (sys_sp vm) vm) vm in
    advance 2 (set_sp (sys_sp vm1 + 255) vm1)

unfoldable pub opcode_c5_xch_a_direct : Vm → Vm
opcode_c5_xch_a_direct vm =
    let addr = get_1_opcode vm in
    advance 2 (set_ram_data addr (sys_a vm) (set_a (get_ram_data addr vm) vm))

-- The address is read again behind the write of A, which cannot change it.
unfoldable pub opcode_c6_xch_a_ri : ℕ → Vm → Vm
opcode_c6_xch_a_ri i vm =
    let vm1 = set_a (get_ram_data_at (get_rges i vm) vm) vm in
    advance 1 (set_ram_data_at (get_rges i vm1) (sys_a vm) vm1)

unfoldable pub opcode_c8_xch_a_rn : ℕ → Vm → Vm
opcode_c8_xch_a_rn n vm = advance 1 (set_rges n (sys_a vm) (set_a (get_rges n vm) vm))

unfoldable pub opcode_d6_xchd_a_ri : ℕ → Vm → Vm
opcode_d6_xchd_a_ri i vm =
    let value = get_ram_data_at (get_rges i vm) vm in
    let temp = low_bits (sys_a vm) 4 in
    let vm1 = set_a (shr (sys_a vm) 4 * 16) vm in
    let vm2 = set_a (bit_or (sys_a vm1) (low_bits value 4)) vm1 in
    advance 1 (set_ram_data_at (get_rges i vm2) (bit_or (shr value 4 * 16) temp) vm2)
