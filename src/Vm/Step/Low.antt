-- ===== src/Vm/Step/Low.antt =====
-- The cases 0x00 to 0x7F of `CVm8051::StepRun` (src/vm/vm8051.cpp), sixteen to a row, in order.
use dacrs.Base.{List, [], ◌∷◌}
use dacrs.Vm.State.{Vm}
use dacrs.Vm.Ops.Arith.{
  opcode_04_inc_a, opcode_05_inc_direct, opcode_06_inc_ri, opcode_08_inc_rn, opcode_14_dec_a,
  opcode_15_dec_direct, opcode_16_dec_ri, opcode_18_dec_rn, opcode_24_add_a_data,
  opcode_25_add_a_direct, opcode_26_add_a_ri, opcode_28_add_a_rn, opcode_34_addc_a_data,
  opcode_35_addc_a_direct, opcode_36_addc_a_ri, opcode_38_addc_a_rn,
}
use dacrs.Vm.Ops.Logic.{
  opcode_03_rr_a, opcode_13_rrc_a, opcode_23_rl_a, opcode_33_rlc_a, opcode_42_orl_direct_a,
  opcode_43_orl_direct_data, opcode_44_orl_a_data, opcode_45_orl_a_direct, opcode_46_orl_a_ri,
  opcode_48_orl_a_rn, opcode_52_anl_direct_a, opcode_53_anl_direct_data, opcode_54_anl_a_data,
  opcode_55_anl_a_direct, opcode_56_anl_a_ri, opcode_58_anl_a_rn, opcode_62_xrl_direct_a,
  opcode_63_xrl_direct_data, opcode_64_xrl_a_data, opcode_65_xrl_a_direct, opcode_66_xrl_a_ri,
  opcode_68_xrl_a_rn,
}
use dacrs.Vm.Ops.Move.{
  opcode_00_nop, opcode_74_mov_a_data, opcode_75_mov_direct_data, opcode_76_mov_ri_data,
  opcode_78_mov_rn_data,
}
use dacrs.Vm.Ops.Bits.{opcode_72_orl_c_direct}
use dacrs.Vm.Ops.Flow.{
  acall, opcode_01_ajmp_addr11, opcode_02_ljmp_addr16, opcode_10_jbc_bit_rel,
  opcode_12_lcall_addr16, opcode_20_jb_bit_rel, opcode_22_ret, opcode_30_jnb_bit_rel,
  opcode_32_reti, opcode_40_jc_rel, opcode_50_jnc_rel, opcode_60_jz_rel, opcode_70_jnz_rel,
  opcode_73_jmp_a_dptr,
}

unfoldable pub step_run_00 : List (Vm → Vm)
step_run_00 =
    opcode_00_nop
    ∷ opcode_01_ajmp_addr11 0x01
    ∷ opcode_02_ljmp_addr16
    ∷ opcode_03_rr_a
    ∷ opcode_04_inc_a
    ∷ opcode_05_inc_direct
    ∷ opcode_06_inc_ri 0
    ∷ opcode_06_inc_ri 1
    ∷ opcode_08_inc_rn 0
    ∷ opcode_08_inc_rn 1
    ∷ opcode_08_inc_rn 2
    ∷ opcode_08_inc_rn 3
    ∷ opcode_08_inc_rn 4
    ∷ opcode_08_inc_rn 5
    ∷ opcode_08_inc_rn 6
    ∷ opcode_08_inc_rn 7
    ∷ []

unfoldable pub step_run_10 : List (Vm → Vm)
step_run_10 =
    opcode_10_jbc_bit_rel
    ∷ acall 0x11
    ∷ opcode_12_lcall_addr16
    ∷ opcode_13_rrc_a
    ∷ opcode_14_dec_a
    ∷ opcode_15_dec_direct
    ∷ opcode_16_dec_ri 0
    ∷ opcode_16_dec_ri 1
    ∷ opcode_18_dec_rn 0
    ∷ opcode_18_dec_rn 1
    ∷ opcode_18_dec_rn 2
    ∷ opcode_18_dec_rn 3
    ∷ opcode_18_dec_rn 4
    ∷ opcode_18_dec_rn 5
    ∷ opcode_18_dec_rn 6
    ∷ opcode_18_dec_rn 7
    ∷ []

unfoldable pub step_run_20 : List (Vm → Vm)
step_run_20 =
    opcode_20_jb_bit_rel
    ∷ opcode_01_ajmp_addr11 0x21
    ∷ opcode_22_ret
    ∷ opcode_23_rl_a
    ∷ opcode_24_add_a_data
    ∷ opcode_25_add_a_direct
    ∷ opcode_26_add_a_ri 0
    ∷ opcode_26_add_a_ri 1
    ∷ opcode_28_add_a_rn 0
    ∷ opcode_28_add_a_rn 1
    ∷ opcode_28_add_a_rn 2
    ∷ opcode_28_add_a_rn 3
    ∷ opcode_28_add_a_rn 4
    ∷ opcode_28_add_a_rn 5
    ∷ opcode_28_add_a_rn 6
    ∷ opcode_28_add_a_rn 7
    ∷ []

unfoldable pub step_run_30 : List (Vm → Vm)
step_run_30 =
    opcode_30_jnb_bit_rel
    ∷ acall 0x31
    ∷ opcode_32_reti
    ∷ opcode_33_rlc_a
    ∷ opcode_34_addc_a_data
    ∷ opcode_35_addc_a_direct
    ∷ opcode_36_addc_a_ri 0
    ∷ opcode_36_addc_a_ri 1
    ∷ opcode_38_addc_a_rn 0
    ∷ opcode_38_addc_a_rn 1
    ∷ opcode_38_addc_a_rn 2
    ∷ opcode_38_addc_a_rn 3
    ∷ opcode_38_addc_a_rn 4
    ∷ opcode_38_addc_a_rn 5
    ∷ opcode_38_addc_a_rn 6
    ∷ opcode_38_addc_a_rn 7
    ∷ []

unfoldable pub step_run_40 : List (Vm → Vm)
step_run_40 =
    opcode_40_jc_rel
    ∷ opcode_01_ajmp_addr11 0x41
    ∷ opcode_42_orl_direct_a
    ∷ opcode_43_orl_direct_data
    ∷ opcode_44_orl_a_data
    ∷ opcode_45_orl_a_direct
    ∷ opcode_46_orl_a_ri 0
    ∷ opcode_46_orl_a_ri 1
    ∷ opcode_48_orl_a_rn 0
    ∷ opcode_48_orl_a_rn 1
    ∷ opcode_48_orl_a_rn 2
    ∷ opcode_48_orl_a_rn 3
    ∷ opcode_48_orl_a_rn 4
    ∷ opcode_48_orl_a_rn 5
    ∷ opcode_48_orl_a_rn 6
    ∷ opcode_48_orl_a_rn 7
    ∷ []

unfoldable pub step_run_50 : List (Vm → Vm)
step_run_50 =
    opcode_50_jnc_rel
    ∷ acall 0x51
    ∷ opcode_52_anl_direct_a
    ∷ opcode_53_anl_direct_data
    ∷ opcode_54_anl_a_data
    ∷ opcode_55_anl_a_direct
    ∷ opcode_56_anl_a_ri 0
    ∷ opcode_56_anl_a_ri 1
    ∷ opcode_58_anl_a_rn 0
    ∷ opcode_58_anl_a_rn 1
    ∷ opcode_58_anl_a_rn 2
    ∷ opcode_58_anl_a_rn 3
    ∷ opcode_58_anl_a_rn 4
    ∷ opcode_58_anl_a_rn 5
    ∷ opcode_58_anl_a_rn 6
    ∷ opcode_58_anl_a_rn 7
    ∷ []

unfoldable pub step_run_60 : List (Vm → Vm)
step_run_60 =
    opcode_60_jz_rel
    ∷ opcode_01_ajmp_addr11 0x61
    ∷ opcode_62_xrl_direct_a
    ∷ opcode_63_xrl_direct_data
    ∷ opcode_64_xrl_a_data
    ∷ opcode_65_xrl_a_direct
    ∷ opcode_66_xrl_a_ri 0
    ∷ opcode_66_xrl_a_ri 1
    ∷ opcode_68_xrl_a_rn 0
    ∷ opcode_68_xrl_a_rn 1
    ∷ opcode_68_xrl_a_rn 2
    ∷ opcode_68_xrl_a_rn 3
    ∷ opcode_68_xrl_a_rn 4
    ∷ opcode_68_xrl_a_rn 5
    ∷ opcode_68_xrl_a_rn 6
    ∷ opcode_68_xrl_a_rn 7
    ∷ []

unfoldable pub step_run_70 : List (Vm → Vm)
step_run_70 =
    opcode_70_jnz_rel
    ∷ acall 0x71
    ∷ opcode_72_orl_c_direct
    ∷ opcode_73_jmp_a_dptr
    ∷ opcode_74_mov_a_data
    ∷ opcode_75_mov_direct_data
    ∷ opcode_76_mov_ri_data 0
    ∷ opcode_76_mov_ri_data 1
    ∷ opcode_78_mov_rn_data 0
    ∷ opcode_78_mov_rn_data 1
    ∷ opcode_78_mov_rn_data 2
    ∷ opcode_78_mov_rn_data 3
    ∷ opcode_78_mov_rn_data 4
    ∷ opcode_78_mov_rn_data 5
    ∷ opcode_78_mov_rn_data 6
    ∷ opcode_78_mov_rn_data 7
    ∷ []
