-- ===== src/Vm/Closure/Move.antt =====
-- The data transfers of src/vm/vm8051.cpp, read as writes.
use dacrs.Base.{ℕ, Bool, true, refl}
use dacrs.Vm.State.{Vm}
use dacrs.Vm.Ops.Move.{
  opcode_00_nop, opcode_a5, opcode_74_mov_a_data, opcode_75_mov_direct_data, opcode_76_mov_ri_data,
  opcode_78_mov_rn_data, opcode_85_mov_direct_direct, opcode_86_mov_direct_ri,
  opcode_88_mov_direct_rn, opcode_90_mov_dptr_data, opcode_a6_mov_ri_direct,
  opcode_a8_mov_rn_direct, opcode_e5_mov_a_direct, opcode_e6_mov_a_ri, opcode_e8_mov_a_rn,
  opcode_f5_mov_direct_a, opcode_f6_mov_ri_a, opcode_f8_mov_rn_a, opcode_e0_movx_a_dptr,
  opcode_e2_movx_a_ri, opcode_f0_movx_dptr_a, opcode_f2_movx_ri_a, opcode_83_movc_a_pc,
  opcode_93_movc_a_dptr, opcode_c0_push_direct, opcode_d0_pop_direct, opcode_c5_xch_a_direct,
  opcode_c6_xch_a_ri, opcode_c8_xch_a_rn, opcode_d6_xchd_a_ri,
}
use dacrs.Vm.Closure.Writes.{Writes, writes, ex, advance-Writes, start}

module _ {ext : Bool} where
  pub opcode_00_nop-Writes : (vm : Vm) → Writes ext vm (opcode_00_nop vm)
  unfolding opcode_00_nop
  opcode_00_nop-Writes vm = search writes depth 9

  pub opcode_a5-Writes : (vm : Vm) → Writes ext vm (opcode_a5 vm)
  unfolding opcode_a5
  opcode_a5-Writes vm = search writes depth 9

  pub opcode_74_mov_a_data-Writes : (vm : Vm) → Writes ext vm (opcode_74_mov_a_data vm)
  unfolding opcode_74_mov_a_data
  opcode_74_mov_a_data-Writes vm = search writes depth 9

  pub opcode_75_mov_direct_data-Writes : (vm : Vm) → Writes ext vm (opcode_75_mov_direct_data vm)
  unfolding opcode_75_mov_direct_data
  opcode_75_mov_direct_data-Writes vm = search writes depth 9

  pub opcode_76_mov_ri_data-Writes : (n : ℕ) (vm : Vm) → Writes ext vm (opcode_76_mov_ri_data n vm)
  unfolding opcode_76_mov_ri_data
  opcode_76_mov_ri_data-Writes n vm = search writes depth 9

  pub opcode_78_mov_rn_data-Writes : (n : ℕ) (vm : Vm) → Writes ext vm (opcode_78_mov_rn_data n vm)
  unfolding opcode_78_mov_rn_data
  opcode_78_mov_rn_data-Writes n vm = search writes depth 9

  pub opcode_85_mov_direct_direct-Writes :
      (vm : Vm) → Writes ext vm (opcode_85_mov_direct_direct vm)
  unfolding opcode_85_mov_direct_direct
  opcode_85_mov_direct_direct-Writes vm = search writes depth 9

  pub opcode_86_mov_direct_ri-Writes :
      (n : ℕ) (vm : Vm) → Writes ext vm (opcode_86_mov_direct_ri n vm)
  unfolding opcode_86_mov_direct_ri
  opcode_86_mov_direct_ri-Writes n vm = search writes depth 9

  pub opcode_88_mov_direct_rn-Writes :
      (n : ℕ) (vm : Vm) → Writes ext vm (opcode_88_mov_direct_rn n vm)
  unfolding opcode_88_mov_direct_rn
  opcode_88_mov_direct_rn-Writes n vm = search writes depth 9

  pub opcode_90_mov_dptr_data-Writes : (vm : Vm) → Writes ext vm (opcode_90_mov_dptr_data vm)
  unfolding opcode_90_mov_dptr_data
  opcode_90_mov_dptr_data-Writes vm = search writes depth 9

  pub opcode_a6_mov_ri_direct-Writes :
      (n : ℕ) (vm : Vm) → Writes ext vm (opcode_a6_mov_ri_direct n vm)
  unfolding opcode_a6_mov_ri_direct
  opcode_a6_mov_ri_direct-Writes n vm = search writes depth 9

  pub opcode_a8_mov_rn_direct-Writes :
      (n : ℕ) (vm : Vm) → Writes ext vm (opcode_a8_mov_rn_direct n vm)
  unfolding opcode_a8_mov_rn_direct
  opcode_a8_mov_rn_direct-Writes n vm = search writes depth 9

  pub opcode_e5_mov_a_direct-Writes : (vm : Vm) → Writes ext vm (opcode_e5_mov_a_direct vm)
  unfolding opcode_e5_mov_a_direct
  opcode_e5_mov_a_direct-Writes vm = search writes depth 9

  pub opcode_e6_mov_a_ri-Writes : (n : ℕ) (vm : Vm) → Writes ext vm (opcode_e6_mov_a_ri n vm)
  unfolding opcode_e6_mov_a_ri
  opcode_e6_mov_a_ri-Writes n vm = search writes depth 9

  pub opcode_e8_mov_a_rn-Writes : (n : ℕ) (vm : Vm) → Writes ext vm (opcode_e8_mov_a_rn n vm)
  unfolding opcode_e8_mov_a_rn
  opcode_e8_mov_a_rn-Writes n vm = search writes depth 9

  pub opcode_f5_mov_direct_a-Writes : (vm : Vm) → Writes ext vm (opcode_f5_mov_direct_a vm)
  unfolding opcode_f5_mov_direct_a
  opcode_f5_mov_direct_a-Writes vm = search writes depth 9

  pub opcode_f6_mov_ri_a-Writes : (n : ℕ) (vm : Vm) → Writes ext vm (opcode_f6_mov_ri_a n vm)
  unfolding opcode_f6_mov_ri_a
  opcode_f6_mov_ri_a-Writes n vm = search writes depth 9

  pub opcode_f8_mov_rn_a-Writes : (n : ℕ) (vm : Vm) → Writes ext vm (opcode_f8_mov_rn_a n vm)
  unfolding opcode_f8_mov_rn_a
  opcode_f8_mov_rn_a-Writes n vm = search writes depth 9

  pub opcode_e0_movx_a_dptr-Writes : (vm : Vm) → Writes ext vm (opcode_e0_movx_a_dptr vm)
  unfolding opcode_e0_movx_a_dptr
  opcode_e0_movx_a_dptr-Writes vm = search writes depth 9

  pub opcode_e2_movx_a_ri-Writes : (n : ℕ) (vm : Vm) → Writes ext vm (opcode_e2_movx_a_ri n vm)
  unfolding opcode_e2_movx_a_ri
  opcode_e2_movx_a_ri-Writes n vm = search writes depth 9

  pub opcode_83_movc_a_pc-Writes : (vm : Vm) → Writes ext vm (opcode_83_movc_a_pc vm)
  unfolding opcode_83_movc_a_pc
  opcode_83_movc_a_pc-Writes vm = search writes depth 9

  pub opcode_93_movc_a_dptr-Writes : (vm : Vm) → Writes ext vm (opcode_93_movc_a_dptr vm)
  unfolding opcode_93_movc_a_dptr
  opcode_93_movc_a_dptr-Writes vm = search writes depth 9

  pub opcode_c0_push_direct-Writes : (vm : Vm) → Writes ext vm (opcode_c0_push_direct vm)
  unfolding opcode_c0_push_direct
  opcode_c0_push_direct-Writes vm = search writes depth 9

  pub opcode_d0_pop_direct-Writes : (vm : Vm) → Writes ext vm (opcode_d0_pop_direct vm)
  unfolding opcode_d0_pop_direct
  opcode_d0_pop_direct-Writes vm = search writes depth 9

  pub opcode_c5_xch_a_direct-Writes : (vm : Vm) → Writes ext vm (opcode_c5_xch_a_direct vm)
  unfolding opcode_c5_xch_a_direct
  opcode_c5_xch_a_direct-Writes vm = search writes depth 9

  pub opcode_c6_xch_a_ri-Writes : (n : ℕ) (vm : Vm) → Writes ext vm (opcode_c6_xch_a_ri n vm)
  unfolding opcode_c6_xch_a_ri
  opcode_c6_xch_a_ri-Writes n vm = search writes depth 9

  pub opcode_c8_xch_a_rn-Writes : (n : ℕ) (vm : Vm) → Writes ext vm (opcode_c8_xch_a_rn n vm)
  unfolding opcode_c8_xch_a_rn
  opcode_c8_xch_a_rn-Writes n vm = search writes depth 9

  pub opcode_d6_xchd_a_ri-Writes : (n : ℕ) (vm : Vm) → Writes ext vm (opcode_d6_xchd_a_ri n vm)
  unfolding opcode_d6_xchd_a_ri
  opcode_d6_xchd_a_ri-Writes n vm = search writes depth 20

pub opcode_f0_movx_dptr_a-Writes : (vm : Vm) → Writes true vm (opcode_f0_movx_dptr_a vm)
unfolding opcode_f0_movx_dptr_a
opcode_f0_movx_dptr_a-Writes vm = advance-Writes 1 (ex _ _ refl start)

pub opcode_f2_movx_ri_a-Writes : (n : ℕ) (vm : Vm) → Writes true vm (opcode_f2_movx_ri_a n vm)
unfolding opcode_f2_movx_ri_a
opcode_f2_movx_ri_a-Writes n vm = advance-Writes 1 (ex _ _ refl start)

pub ruleset move_writes = (
  opcode_00_nop-Writes, opcode_a5-Writes, opcode_74_mov_a_data-Writes,
  opcode_75_mov_direct_data-Writes, opcode_76_mov_ri_data-Writes, opcode_78_mov_rn_data-Writes,
  opcode_85_mov_direct_direct-Writes, opcode_86_mov_direct_ri-Writes,
  opcode_88_mov_direct_rn-Writes, opcode_90_mov_dptr_data-Writes, opcode_a6_mov_ri_direct-Writes,
  opcode_a8_mov_rn_direct-Writes, opcode_e5_mov_a_direct-Writes, opcode_e6_mov_a_ri-Writes,
  opcode_e8_mov_a_rn-Writes, opcode_f5_mov_direct_a-Writes, opcode_f6_mov_ri_a-Writes,
  opcode_f8_mov_rn_a-Writes, opcode_e0_movx_a_dptr-Writes, opcode_e2_movx_a_ri-Writes,
  opcode_f0_movx_dptr_a-Writes, opcode_f2_movx_ri_a-Writes, opcode_83_movc_a_pc-Writes,
  opcode_93_movc_a_dptr-Writes, opcode_c0_push_direct-Writes, opcode_d0_pop_direct-Writes,
  opcode_c5_xch_a_direct-Writes, opcode_c6_xch_a_ri-Writes, opcode_c8_xch_a_rn-Writes,
  opcode_d6_xchd_a_ri-Writes,
)
