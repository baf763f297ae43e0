-- ===== src/Vm/Ops/Logic.antt =====
-- The logical instructions: ORL, ANL, XRL, CLR, CPL, SWAP and the rotations of the accumulator.
use dacrs.Base.{ℕ, ◌-◌, ◌*◌, bit_and, bit_or, bit_xor, ◌==◌, if◌then◌else◌}
use dacrs.Base.Words.{low_bits, shr, bit_of}
use dacrs.Vm.State.{
  Vm, get_ram_data, set_ram_data, get_ram_data_at, advance, get_1_opcode, get_2_opcode, get_rges,
  sys_a, psw_cy, set_cy, set_a,
}

unfoldable pub opcode_03_rr_a : Vm → Vm
opcode_03_rr_a vm =
    let temp = low_bits (sys_a vm) 1 in
    let vm1 = set_a (shr (sys_a vm) 1) vm in advance 1 (set_a (bit_or (sys_a vm1) (temp * 128)) vm1)

unfoldable pub opcode_13_rrc_a : Vm → Vm
opcode_13_rrc_a vm =
    let temp = low_bits (sys_a vm) 1 in
    let vm1 = set_a (bit_or (shr (sys_a vm) 1) (psw_cy vm * 128)) vm in
    advance 1 (set_cy (if temp == 0 then 0 else 1) vm1)

-- `temp >> 7` for `temp = Sys.a() & 0x80` is bit 7.
unfoldable pub opcode_23_rl_a : Vm → Vm
opcode_23_rl_a vm = advance 1 (set_a (bit_or (sys_a vm * 2) (bit_of (sys_a vm) 7)) vm)

unfoldable pub opcode_33_rlc_a : Vm → Vm
opcode_33_rlc_a vm =
    let temp = bit_of (sys_a vm) 7 in
    let vm1 = set_a (bit_or (sys_a vm * 2) (psw_cy vm)) vm in
    advance 1 (set_cy (if temp == 0 then 0 else 1) vm1)

-- The three operations share their addressing modes.
unfoldable pub opcode_42_orl_direct_a : Vm → Vm
opcode_42_orl_direct_a vm =
    let addr = get_1_opcode vm in
    advance 2 (set_ram_data addr (bit_or (get_ram_data addr vm) (sys_a vm)) vm)

unfoldable pub opcode_43_orl_direct_data : Vm → Vm
opcode_43_orl_direct_data vm =
    let addr = get_1_opcode vm in
    advance 3 (set_ram_data addr (bit_or (get_ram_data addr vm) (get_2_opcode vm)) vm)

unfoldable pub opcode_44_orl_a_data : Vm → Vm
opcode_44_orl_a_data vm = advance 2 (set_a (bit_or (sys_a vm) (get_1_opcode vm)) vm)

unfoldable pub opcode_45_orl_a_direct : Vm → Vm
opcode_45_orl_a_direct vm =
    advance 2 (set_a (bit_or (sys_a vm) (get_ram_data (get_1_opcode vm) vm)) vm)

unfoldable pub opcode_46_orl_a_ri : ℕ → Vm → Vm
opcode_46_orl_a_ri i vm =
    advance 1 (set_a (bit_or (sys_a vm) (get_ram_data_at (get_rges i vm) vm)) vm)

unfoldable pub opcode_48_orl_a_rn : ℕ → Vm → Vm
opcode_48_orl_a_rn n vm = advance 1 (set_a (bit_or (sys_a vm) (get_rges n vm)) vm)

unfoldable pub opcode_52_anl_direct_a : Vm → Vm
opcode_52_anl_direct_a vm =
    let addr = get_1_opcode vm in
    advance 2 (set_ram_data addr (bit_and (get_ram_data addr vm) (sys_a vm)) vm)

unfoldable pub opcode_53_anl_direct_data : Vm → Vm
opcode_53_anl_direct_data vm =
    let addr = get_1_opcode vm in
    advance 3 (set_ram_data addr (bit_and (get_ram_data addr vm) (get_2_opcode vm)) vm)

unfoldable pub opcode_54_anl_a_data : Vm → Vm
opcode_54_anl_a_data vm = advance 2 (set_a (bit_and (sys_a vm) (get_1_opcode vm)) vm)

unfoldable pub opcode_55_anl_a_direct : Vm → Vm
opcode_55_anl_a_direct vm =
    advance 2 (set_a (bit_and (sys_a vm) (get_ram_data (get_1_opcode vm) vm)) vm)

unfoldable pub opcode_56_anl_a_ri : ℕ → Vm → Vm
opcode_56_anl_a_ri i vm =
    advance 1 (set_a (bit_and (sys_a vm) (get_ram_data_at (get_rges i vm) vm)) vm)

unfoldable pub opcode_58_anl_a_rn : ℕ → Vm → Vm
opcode_58_anl_a_rn n vm = advance 1 (set_a (bit_and (sys_a vm) (get_rges n vm)) vm)

unfoldable pub opcode_62_xrl_direct_a : Vm → Vm
opcode_62_xrl_direct_a vm =
    let addr = get_1_opcode vm in
    advance 2 (set_ram_data addr (bit_xor (get_ram_data addr vm) (sys_a vm)) vm)

unfoldable pub opcode_63_xrl_direct_data : Vm → Vm
opcode_63_xrl_direct_data vm =
    let addr = get_1_opcode vm in
    advance 3 (set_ram_data addr (bit_xor (get_ram_data addr vm) (get_2_opcode vm)) vm)

unfoldable pub opcode_64_xrl_a_data : Vm → Vm
opcode_64_xrl_a_data vm = advance 2 (set_a (bit_xor (sys_a vm) (get_1_opcode vm)) vm)

unfoldable pub opcode_65_xrl_a_direct : Vm → Vm
opcode_65_xrl_a_direct vm =
    advance 2 (set_a (bit_xor (sys_a vm) (get_ram_data (get_1_opcode vm) vm)) vm)

unfoldable pub opcode_66_xrl_a_ri : ℕ → Vm → Vm
opcode_66_xrl_a_ri i vm =
    advance 1 (set_a (bit_xor (sys_a vm) (get_ram_data_at (get_rges i vm) vm)) vm)

unfoldable pub opcode_68_xrl_a_rn : ℕ → Vm → Vm
opcode_68_xrl_a_rn n vm = advance 1 (set_a (bit_xor (sys_a vm) (get_rges n vm)) vm)

unfoldable pub opcode_c4_swap_a : Vm → Vm
opcode_c4_swap_a vm =
    let temp = low_bits (sys_a vm) 4 in advance 1 (set_a (bit_or (shr (sys_a vm) 4) (temp * 16)) vm)

unfoldable pub opcode_e4_clr_a : Vm → Vm
opcode_e4_clr_a vm = advance 1 (set_a 0 vm)

-- `~x` in an INT8U.
unfoldable pub opcode_f4_cpl_a : Vm → Vm
opcode_f4_cpl_a vm = advance 1 (set_a (255 - sys_a vm) vm)
