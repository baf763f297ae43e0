-- ===== src/Vm/Step/High.antt =====
-- The cases 0x80 to 0xFF of `CVm8051::StepRun` (src/vm/vm8051.cpp), sixteen to a row, in order.
use dacrs.Base.{List, [], ◌∷◌}
use dacrs.Vm.State.{Vm}
use dacrs.Vm.Ops.Arith.{
  opcode_84_div_ab, opcode_94_subb_a_data, opcode_95_subb_a_direct, opcode_96_subb_a_ri,
  opcode_98_subb_a_rn, opcode_a3_inc_dptr, opcode_a4_mul_ab, opcode_d4_da_a,
}
use dacrs.Vm.Ops.Logic.{opcode_c4_swap_a, opcode_e4_clr_a, opcode_f4_cpl_a}
use dacrs.Vm.Ops.Move.{
  opcode_83_movc_a_pc, opcode_85_mov_direct_direct, opcode_86_mov_direct_ri,
  opcode_88_mov_direct_rn, opcode_90_mov_dptr_data, opcode_93_movc_a_dptr, opcode_a5,
  opcode_a6_mov_ri_direct, opcode_a8_mov_rn_direct, opcode_c0_push_direct, opcode_c5_xch_a_direct,
  opcode_c6_xch_a_ri, opcode_c8_xch_a_rn, opcode_d0_pop_direct, opcode_d6_xchd_a_ri,
  opcode_e0_movx_a_dptr, opcode_e2_movx_a_ri, opcode_e5_mov_a_direct, opcode_e6_mov_a_ri,
  opcode_e8_mov_a_rn, opcode_f0_movx_dptr_a, opcode_f2_movx_ri_a, opcode_f5_mov_direct_a,
  opcode_f6_mov_ri_a, opcode_f8_mov_rn_a,
}
use dacrs.Vm.Ops.Bits.{
  opcode_82_anl_c_bit, opcode_92_mov_bit_c, opcode_a0_orl_c_bit, opcode_a2_mov_c_bit,
  opcode_b0_anl_c_bit_1, opcode_b2_cpl_bit, opcode_b3_cpl_c, opcode_c2_clr_bit, opcode_c3_clr_c,
  opcode_d2_setb_bit, opcode_d3_setb_c,
}
use dacrs.Vm.Ops.Flow.{
  acall, opcode_01_ajmp_addr11, opcode_80_sjmp_rel, opcode_b4_cjne_a_data_rel,
  opcode_b5_cjne_a_direct_rel, opcode_b6_cjne_ri_data_rel, opcode_b8_cjne_rn_data_rel,
  opcode_d5_djnz_direct_rel, opcode_d8_djnz_rn_rel,
}

unfoldable pub step_run_80 : List (Vm → Vm)
step_run_80 =
    opcode_80_sjmp_rel
    ∷ opcode_01_ajmp_addr11 0x81
    ∷ opcode_82_anl_c_bit
    ∷ opcode_83_movc_a_pc
    ∷ opcode_84_div_ab
    ∷ opcode_85_mov_direct_direct
    ∷ opcode_86_mov_direct_ri 0
    ∷ opcode_86_mov_direct_ri 1
    ∷ opcode_88_mov_direct_rn 0
    ∷ opcode_88_mov_direct_rn 1
    ∷ opcode_88_mov_direct_rn 2
    ∷ opcode_88_mov_direct_rn 3
    ∷ opcode_88_mov_direct_rn 4
    ∷ opcode_88_mov_direct_rn 5
    ∷ opcode_88_mov_direct_rn 6
    ∷ opcode_88_mov_direct_rn 7
    ∷ []

unfoldable pub step_run_90 : List (Vm → Vm)
step_run_90 =
    opcode_90_mov_dptr_data
    ∷ acall 0x91
    ∷ opcode_92_mov_bit_c
    ∷ opcode_93_movc_a_dptr
    ∷ opcode_94_subb_a_data
    ∷ opcode_95_subb_a_direct
    ∷ opcode_96_subb_a_ri 0
    ∷ opcode_96_subb_a_ri 1
    ∷ opcode_98_subb_a_rn 0
    ∷ opcode_98_subb_a_rn 1
    ∷ opcode_98_subb_a_rn 2
    ∷ opcode_98_subb_a_rn 3
    ∷ opcode_98_subb_a_rn 4
    ∷ opcode_98_subb_a_rn 5
    ∷ opcode_98_subb_a_rn 6
    ∷ opcode_98_subb_a_rn 7
    ∷ []

unfoldable pub step_run_a0 : List (Vm → Vm)
step_run_a0 =
    opcode_a0_orl_c_bit
    ∷ opcode_01_ajmp_addr11 0xA1
    ∷ opcode_a2_mov_c_bit
    ∷ opcode_a3_inc_dptr
    ∷ opcode_a4_mul_ab
    ∷ opcode_a5
    ∷ opcode_a6_mov_ri_direct 0
    ∷ opcode_a6_mov_ri_direct 1
    ∷ opcode_a8_mov_rn_direct 0
    ∷ opcode_a8_mov_rn_direct 1
    ∷ opcode_a8_mov_rn_direct 2
    ∷ opcode_a8_mov_rn_direct 3
    ∷ opcode_a8_mov_rn_direct 4
    ∷ opcode_a8_mov_rn_direct 5
    ∷ opcode_a8_mov_rn_direct 6
    ∷ opcode_a8_mov_rn_direct 7
    ∷ []

unfoldable pub step_run_b0 : List (Vm → Vm)
step_run_b0 =
    opcode_b0_anl_c_bit_1
    ∷ acall 0xB1
    ∷ opcode_b2_cpl_bit
    ∷ opcode_b3_cpl_c
    ∷ opcode_b4_cjne_a_data_rel
    ∷ opcode_b5_cjne_a_direct_rel
    ∷ opcode_b6_cjne_ri_data_rel 0
    ∷ opcode_b6_cjne_ri_data_rel 1
    ∷ opcode_b8_cjne_rn_data_rel 0
    ∷ opcode_b8_cjne_rn_data_rel 1
    ∷ opcode_b8_cjne_rn_data_rel 2
    ∷ opcode_b8_cjne_rn_data_rel 3
    ∷ opcode_b8_cjne_rn_data_rel 4
    ∷ opcode_b8_cjne_rn_data_rel 5
    ∷ opcode_b8_cjne_rn_data_rel 6
    ∷ opcode_b8_cjne_rn_data_rel 7
    ∷ []

unfoldable pub step_run_c0 : List (Vm → Vm)
step_run_c0 =
    opcode_c0_push_direct
    ∷ opcode_01_ajmp_addr11 0xC1
    ∷ opcode_c2_clr_bit
    ∷ opcode_c3_clr_c
    ∷ opcode_c4_swap_a
    ∷ opcode_c5_xch_a_direct
    ∷ opcode_c6_xch_a_ri 0
    ∷ opcode_c6_xch_a_ri 1
    ∷ opcode_c8_xch_a_rn 0
    ∷ opcode_c8_xch_a_rn 1
    ∷ opcode_c8_xch_a_rn 2
    ∷ opcode_c8_xch_a_rn 3
    ∷ opcode_c8_xch_a_rn 4
    ∷ opcode_c8_xch_a_rn 5
    ∷ opcode_c8_xch_a_rn 6
    ∷ opcode_c8_xch_a_rn 7
    ∷ []

unfoldable pub step_run_d0 : List (Vm → Vm)
step_run_d0 =
    opcode_d0_pop_direct
    ∷ acall 0xD1
    ∷ opcode_d2_setb_bit
    ∷ opcode_d3_setb_c
    ∷ opcode_d4_da_a
    ∷ opcode_d5_djnz_direct_rel
    ∷ opcode_d6_xchd_a_ri 0
    ∷ opcode_d6_xchd_a_ri 1
    ∷ opcode_d8_djnz_rn_rel 0
    ∷ opcode_d8_djnz_rn_rel 1
    ∷ opcode_d8_djnz_rn_rel 2
    ∷ opcode_d8_djnz_rn_rel 3
    ∷ opcode_d8_djnz_rn_rel 4
    ∷ opcode_d8_djnz_rn_rel 5
    ∷ opcode_d8_djnz_rn_rel 6
    ∷ opcode_d8_djnz_rn_rel 7
    ∷ []

unfoldable pub step_run_e0 : List (Vm → Vm)
step_run_e0 =
    opcode_e0_movx_a_dptr
    ∷ opcode_01_ajmp_addr11 0xE1
    ∷ opcode_e2_movx_a_ri 0
    ∷ opcode_e2_movx_a_ri 1
    ∷ opcode_e4_clr_a
    ∷ opcode_e5_mov_a_direct
    ∷ opcode_e6_mov_a_ri 0
    ∷ opcode_e6_mov_a_ri 1
    ∷ opcode_e8_mov_a_rn 0
    ∷ opcode_e8_mov_a_rn 1
    ∷ opcode_e8_mov_a_rn 2
    ∷ opcode_e8_mov_a_rn 3
    ∷ opcode_e8_mov_a_rn 4
    ∷ opcode_e8_mov_a_rn 5
    ∷ opcode_e8_mov_a_rn 6
    ∷ opcode_e8_mov_a_rn 7
    ∷ []

unfoldable pub step_run_f4 : List (Vm → Vm)
step_run_f4 =
    opcode_f4_cpl_a
    ∷ opcode_f5_mov_direct_a
    ∷ opcode_f6_mov_ri_a 0
    ∷ opcode_f6_mov_ri_a 1
    ∷ opcode_f8_mov_rn_a 0
    ∷ opcode_f8_mov_rn_a 1
    ∷ opcode_f8_mov_rn_a 2
    ∷ opcode_f8_mov_rn_a 3
    ∷ opcode_f8_mov_rn_a 4
    ∷ opcode_f8_mov_rn_a 5
    ∷ opcode_f8_mov_rn_a 6
    ∷ opcode_f8_mov_rn_a 7
    ∷ []

-- The first four store in the external memory, but for the call.
unfoldable pub step_run_f0 : List (Vm → Vm)
unfolding step_run_f4
step_run_f0 =
    opcode_f0_movx_dptr_a ∷ acall 0xF1 ∷ opcode_f2_movx_ri_a 0 ∷ opcode_f2_movx_ri_a 1 ∷ step_run_f4
