-- ===== src/Vm/Ops/Arith.antt =====
-- The arithmetic instructions: INC, DEC, ADD, ADDC, SUBB, MUL, DIV, DA and INC DPTR. A function
-- with an argument `n` stands for the eight functions on R0 to R7, one with `i` for those on @R0
-- and @R1.
use dacrs.Base.{ℕ, ◌+◌, ◌-◌, ◌*◌, ◌/◌, ◌%◌, bit_or, ◌||◌, ltb, ◌==◌, if◌then◌else◌}
use dacrs.Base.Words.{int8u, low_bits, shr, to_flag}
use dacrs.Vm.State.{
  Vm, get_ram_data, set_ram_data, get_ram_data_at, set_ram_data_at, advance, get_1_opcode, get_rges,
  set_rges, sys_a, sys_b, sys_dptr, psw_cy, psw_ac, set_ov, set_ac, set_cy, set_a, set_b, set_dptr,
}

unfoldable pub opcode_04_inc_a : Vm → Vm
opcode_04_inc_a vm = advance 1 (set_a (sys_a vm + 1) vm)

unfoldable pub opcode_05_inc_direct : Vm → Vm
opcode_05_inc_direct vm =
    let addr = get_1_opcode vm in
    advance 2 (set_ram_data addr (int8u (get_ram_data addr vm + 1)) vm)

unfoldable pub opcode_06_inc_ri : ℕ → Vm → Vm
opcode_06_inc_ri i vm =
    let addr = get_rges i vm in
    advance 1 (set_ram_data_at addr (int8u (get_ram_data_at addr vm + 1)) vm)

unfoldable pub opcode_08_inc_rn : ℕ → Vm → Vm
opcode_08_inc_rn n vm = advance 1 (set_rges n (get_rges n vm + 1) vm)

-- `x - 1` in an INT8U.
unfoldable pub opcode_14_dec_a : Vm → Vm
opcode_14_dec_a vm = advance 1 (set_a (sys_a vm + 255) vm)

unfoldable pub opcode_15_dec_direct : Vm → Vm
opcode_15_dec_direct vm =
    let addr = get_1_opcode vm in
    advance 2 (set_ram_data addr (int8u (get_ram_data addr vm + 255)) vm)

unfoldable pub opcode_16_dec_ri : ℕ → Vm → Vm
opcode_16_dec_ri i vm =
    let addr = get_rges i vm in
    advance 1 (set_ram_data_at addr (int8u (get_ram_data_at addr vm + 255)) vm)

unfoldable pub opcode_18_dec_rn : ℕ → Vm → Vm
opcode_18_dec_rn n vm = advance 1 (set_rges n (get_rges n vm + 255) vm)

-- `flagAC` counts the carry out of bit 7 and the carry out of bit 6; one of them is an overflow.
unfoldable pub overflow_flag : ℕ → ℕ → ℕ
overflow_flag tep tep2 = to_flag (to_flag (ltb 0xFF tep) + to_flag (ltb 0x7F tep2) == 1)

unfoldable pub md_add : ℕ → Vm → Vm
unfolding overflow_flag
md_add d vm =
    let tep = sys_a vm + d in
    let tep2 = low_bits (sys_a vm) 7 + low_bits d 7 in
    let vm1 = set_ac (to_flag (ltb 0x0F (low_bits (sys_a vm) 4 + low_bits d 4))) vm in
    let vm2 = set_cy (to_flag (ltb 0xFF tep)) vm1 in
    set_a (int8u tep) (set_ov (overflow_flag tep tep2) vm2)

unfoldable pub md_addc : ℕ → Vm → Vm
unfolding overflow_flag
md_addc d vm =
    let cy = psw_cy vm in
    let tep = sys_a vm + d + cy in
    let tep2 = low_bits (sys_a vm) 7 + low_bits d 7 + cy in
    let vm1 = set_ac (to_flag (ltb 0x0F (low_bits (sys_a vm) 4 + low_bits d 4 + cy))) vm in
    let vm2 = set_cy (to_flag (ltb 0xFF tep)) vm1 in
    set_a (int8u tep) (set_ov (overflow_flag tep tep2) vm2)

-- `tepa - data - bcy` in an INT8U.
unfoldable pub md_subb : ℕ → Vm → Vm
md_subb d vm =
    let tepa = sys_a vm in
    let bcy = psw_cy vm in
    let vm1 = set_ac (to_flag (ltb (low_bits tepa 4) (low_bits d 4 + bcy))) vm in
    let vm2 = set_cy (to_flag (ltb tepa (d + bcy))) vm1 in
    let flagac =
      to_flag (ltb tepa (d + bcy)) + to_flag (ltb (low_bits tepa 7) (low_bits d 7 + bcy)) in
    set_a (int8u (tepa + 512 - d - bcy)) (set_ov (to_flag (flagac == 1)) vm2)

unfoldable pub opcode_24_add_a_data : Vm → Vm
opcode_24_add_a_data vm = advance 2 (md_add (get_1_opcode vm) vm)

unfoldable pub opcode_25_add_a_direct : Vm → Vm
opcode_25_add_a_direct vm = advance 2 (md_add (get_ram_data (get_1_opcode vm) vm) vm)

unfoldable pub opcode_26_add_a_ri : ℕ → Vm → Vm
opcode_26_add_a_ri i vm = advance 1 (md_add (get_ram_data_at (get_rges i vm) vm) vm)

unfoldable pub opcode_28_add_a_rn : ℕ → Vm → Vm
opcode_28_add_a_rn n vm = advance 1 (md_add (get_rges n vm) vm)

unfoldable pub opcode_34_addc_a_data : Vm → Vm
opcode_34_addc_a_data vm = advance 2 (md_addc (get_1_opcode vm) vm)

unfoldable pub opcode_35_addc_a_direct : Vm → Vm
opcode_35_addc_a_direct vm = advance 2 (md_addc (get_ram_data (get_1_opcode vm) vm) vm)

unfoldable pub opcode_36_addc_a_ri : ℕ → Vm → Vm
opcode_36_addc_a_ri i vm = advance 1 (md_addc (get_ram_data_at (get_rges i vm) vm) vm)

unfoldable pub opcode_38_addc_a_rn : ℕ → Vm → Vm
opcode_38_addc_a_rn n vm = advance 1 (md_addc (get_rges n vm) vm)

unfoldable pub opcode_94_subb_a_data : Vm → Vm
opcode_94_subb_a_data vm = advance 2 (md_subb (get_1_opcode vm) vm)

unfoldable pub opcode_95_subb_a_direct : Vm → Vm
opcode_95_subb_a_direct vm = advance 2 (md_subb (get_ram_data (get_1_opcode vm) vm) vm)

unfoldable pub opcode_96_subb_a_ri : ℕ → Vm → Vm
opcode_96_subb_a_ri i vm = advance 1 (md_subb (get_ram_data_at (get_rges i vm) vm) vm)

unfoldable pub opcode_98_subb_a_rn : ℕ → Vm → Vm
opcode_98_subb_a_rn n vm = advance 1 (md_subb (get_rges n vm) vm)

-- With a divisor of 0 the jump to `Ret` leaves A and B alone.
unfoldable pub opcode_84_div_ab : Vm → Vm
opcode_84_div_ab vm =
    let data1 = sys_a vm in
    let data2 = sys_b vm in
    let divided = set_ov 0 (set_b (data1 % data2) (set_a (data1 / data2) vm)) in
    advance 1 (set_cy 0 (if data2 == 0 then set_ov 1 vm else divided))

unfoldable pub opcode_a3_inc_dptr : Vm → Vm
opcode_a3_inc_dptr vm = advance 1 (set_dptr (sys_dptr vm + 1) vm)

unfoldable pub opcode_a4_mul_ab : Vm → Vm
opcode_a4_mul_ab vm =
    let temp = sys_a vm * sys_b vm in
    advance 1 (set_b (shr temp 8) (set_a temp (set_ov (to_flag (ltb 255 temp)) vm)))

-- The low digit of `DA A`, then the high digit, each corrected by itself.
unfoldable pub da_low : Vm → Vm
da_low vm =
    let temp = (low_bits (sys_a vm) 4 + 6) % 16 in
    let vm1 = set_a (shr (sys_a vm) 4 * 16) vm in
    let vm2 = set_a (bit_or (sys_a vm1) temp) vm1 in
    if ltb 9 (low_bits (sys_a vm) 4) || psw_ac vm == 1 then vm2 else vm

unfoldable pub da_high : Vm → Vm
da_high vm =
    let temp = shr (sys_a vm) 4 in
    let vm1 = set_a (low_bits (sys_a vm) 4) vm in
    let vm2 = set_a (bit_or (sys_a vm1) ((temp + 6) % 16 * 16)) vm1 in
    if ltb 9 temp || psw_cy vm == 1 then vm2 else vm

unfoldable pub opcode_d4_da_a : Vm → Vm
unfolding da_low da_high
opcode_d4_da_a vm = advance 1 (da_high (da_low vm))
