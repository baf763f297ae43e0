-- ===== src/Vm/Closure/Logic.antt =====
-- The logical instructions of src/vm/vm8051.cpp, read as writes.
use dacrs.Base.{ℕ, Bool}
use dacrs.Vm.State.{Vm}
use dacrs.Vm.Ops.Logic.{
  opcode_03_rr_a, opcode_13_rrc_a, opcode_23_rl_a, opcode_33_rlc_a, opcode_42_orl_direct_a,
  opcode_43_orl_direct_data, opcode_44_orl_a_data, opcode_45_orl_a_direct, opcode_46_orl_a_ri,
  opcode_48_orl_a_rn, opcode_52_anl_direct_a, opcode_53_anl_direct_data, opcode_54_anl_a_data,
  opcode_55_anl_a_direct, opcode_56_anl_a_ri, opcode_58_anl_a_rn, opcode_62_xrl_direct_a,
  opcode_63_xrl_direct_data, opcode_64_xrl_a_data, opcode_65_xrl_a_direct, opcode_66_xrl_a_ri,
  opcode_68_xrl_a_rn, opcode_c4_swap_a, opcode_e4_clr_a, opcode_f4_cpl_a,
}
use dacrs.Vm.Closure.Writes.{Writes, writes}

module _ {ext : Bool} where
  pub opcode_03_rr_a-Writes : (vm : Vm) → Writes ext vm (opcode_03_rr_a vm)
  unfolding opcode_03_rr_a
  opcode_03_rr_a-Writes vm = search writes depth 9

  pub opcode_13_rrc_a-Writes : (vm : Vm) → Writes ext vm (opcode_13_rrc_a vm)
  unfolding opcode_13_rrc_a
  opcode_13_rrc_a-Writes vm = search writes depth 9

  pub opcode_23_rl_a-Writes : (vm : Vm) → Writes ext vm (opcode_23_rl_a vm)
  unfolding opcode_23_rl_a
  opcode_23_rl_a-Writes vm = search writes depth 9

  pub opcode_33_rlc_a-Writes : (vm : Vm) → Writes ext vm (opcode_33_rlc_a vm)
  unfolding opcode_33_rlc_a
  opcode_33_rlc_a-Writes vm = search writes depth 9

  pub opcode_42_orl_direct_a-Writes : (vm : Vm) → Writes ext vm (opcode_42_orl_direct_a vm)
  unfolding opcode_42_orl_direct_a
  opcode_42_orl_direct_a-Writes vm = search writes depth 9

  pub opcode_43_orl_direct_data-Writes : (vm : Vm) → Writes ext vm (opcode_43_orl_direct_data vm)
  unfolding opcode_43_orl_direct_data
  opcode_43_orl_direct_data-Writes vm = search writes depth 9

  pub opcode_44_orl_a_data-Writes : (vm : Vm) → Writes ext vm (opcode_44_orl_a_data vm)
  unfolding opcode_44_orl_a_data
  opcode_44_orl_a_data-Writes vm = search writes depth 9

  pub opcode_45_orl_a_direct-Writes : (vm : Vm) → Writes ext vm (opcode_45_orl_a_direct vm)
  unfolding opcode_45_orl_a_direct
  opcode_45_orl_a_direct-Writes vm = search writes depth 9

  pub opcode_46_orl_a_ri-Writes : (n : ℕ) (vm : Vm) → Writes ext vm (opcode_46_orl_a_ri n vm)
  unfolding opcode_46_orl_a_ri
  opcode_46_orl_a_ri-Writes n vm = search writes depth 9

  pub opcode_48_orl_a_rn-Writes : (n : ℕ) (vm : Vm) → Writes ext vm (opcode_48_orl_a_rn n vm)
  unfolding opcode_48_orl_a_rn
  opcode_48_orl_a_rn-Writes n vm = search writes depth 9

  pub opcode_52_anl_direct_a-Writes : (vm : Vm) → Writes ext vm (opcode_52_anl_direct_a vm)
  unfolding opcode_52_anl_direct_a
  opcode_52_anl_direct_a-Writes vm = search writes depth 9

  pub opcode_53_anl_direct_data-Writes : (vm : Vm) → Writes ext vm (opcode_53_anl_direct_data vm)
  unfolding opcode_53_anl_direct_data
  opcode_53_anl_direct_data-Writes vm = search writes depth 9

  pub opcode_54_anl_a_data-Writes : (vm : Vm) → Writes ext vm (opcode_54_anl_a_data vm)
  unfolding opcode_54_anl_a_data
  opcode_54_anl_a_data-Writes vm = search writes depth 9

  pub opcode_55_anl_a_direct-Writes : (vm : Vm) → Writes ext vm (opcode_55_anl_a_direct vm)
  unfolding opcode_55_anl_a_direct
  opcode_55_anl_a_direct-Writes vm = search writes depth 9

  pub opcode_56_anl_a_ri-Writes : (n : ℕ) (vm : Vm) → Writes ext vm (opcode_56_anl_a_ri n vm)
  unfolding opcode_56_anl_a_ri
  opcode_56_anl_a_ri-Writes n vm = search writes depth 9

  pub opcode_58_anl_a_rn-Writes : (n : ℕ) (vm : Vm) → Writes ext vm (opcode_58_anl_a_rn n vm)
  unfolding opcode_58_anl_a_rn
  opcode_58_anl_a_rn-Writes n vm = search writes depth 9

  pub opcode_62_xrl_direct_a-Writes : (vm : Vm) → Writes ext vm (opcode_62_xrl_direct_a vm)
  unfolding opcode_62_xrl_direct_a
  opcode_62_xrl_direct_a-Writes vm = search writes depth 9

  pub opcode_63_xrl_direct_data-Writes : (vm : Vm) → Writes ext vm (opcode_63_xrl_direct_data vm)
  unfolding opcode_63_xrl_direct_data
  opcode_63_xrl_direct_data-Writes vm = search writes depth 9

  pub opcode_64_xrl_a_data-Writes : (vm : Vm) → Writes ext vm (opcode_64_xrl_a_data vm)
  unfolding opcode_64_xrl_a_data
  opcode_64_xrl_a_data-Writes vm = search writes depth 9

  pub opcode_65_xrl_a_direct-Writes : (vm : Vm) → Writes ext vm (opcode_65_xrl_a_direct vm)
  unfolding opcode_65_xrl_a_direct
  opcode_65_xrl_a_direct-Writes vm = search writes depth 9

  pub opcode_66_xrl_a_ri-Writes : (n : ℕ) (vm : Vm) → Writes ext vm (opcode_66_xrl_a_ri n vm)
  unfolding opcode_66_xrl_a_ri
  opcode_66_xrl_a_ri-Writes n vm = search writes depth 9

  pub opcode_68_xrl_a_rn-Writes : (n : ℕ) (vm : Vm) → Writes ext vm (opcode_68_xrl_a_rn n vm)
  unfolding opcode_68_xrl_a_rn
  opcode_68_xrl_a_rn-Writes n vm = search writes depth 9

  pub opcode_c4_swap_a-Writes : (vm : Vm) → Writes ext vm (opcode_c4_swap_a vm)
  unfolding opcode_c4_swap_a
  opcode_c4_swap_a-Writes vm = search writes depth 9

  pub opcode_e4_clr_a-Writes : (vm : Vm) → Writes ext vm (opcode_e4_clr_a vm)
  unfolding opcode_e4_clr_a
  opcode_e4_clr_a-Writes vm = search writes depth 9

  pub opcode_f4_cpl_a-Writes : (vm : Vm) → Writes ext vm (opcode_f4_cpl_a vm)
  unfolding opcode_f4_cpl_a
  opcode_f4_cpl_a-Writes vm = search writes depth 9

pub ruleset logic_writes = (
  opcode_03_rr_a-Writes, opcode_13_rrc_a-Writes, opcode_23_rl_a-Writes, opcode_33_rlc_a-Writes,
  opcode_42_orl_direct_a-Writes, opcode_43_orl_direct_data-Writes, opcode_44_orl_a_data-Writes,
  opcode_45_orl_a_direct-Writes, opcode_46_orl_a_ri-Writes, opcode_48_orl_a_rn-Writes,
  opcode_52_anl_direct_a-Writes, opcode_53_anl_direct_data-Writes, opcode_54_anl_a_data-Writes,
  opcode_55_anl_a_direct-Writes, opcode_56_anl_a_ri-Writes, opcode_58_anl_a_rn-Writes,
  opcode_62_xrl_direct_a-Writes, opcode_63_xrl_direct_data-Writes, opcode_64_xrl_a_data-Writes,
  opcode_65_xrl_a_direct-Writes, opcode_66_xrl_a_ri-Writes, opcode_68_xrl_a_rn-Writes,
  opcode_c4_swap_a-Writes, opcode_e4_clr_a-Writes, opcode_f4_cpl_a-Writes,
)
