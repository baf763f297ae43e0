-- ===== src/Vm/Closure/Arith.antt =====
-- The arithmetic instructions of src/vm/vm8051.cpp, read as writes.
use dacrs.Base.{ℕ, Bool}
use dacrs.Vm.State.{Vm}
use dacrs.Vm.Ops.Arith.{
  opcode_04_inc_a, opcode_05_inc_direct, opcode_06_inc_ri, opcode_08_inc_rn, opcode_14_dec_a,
  opcode_15_dec_direct, opcode_16_dec_ri, opcode_18_dec_rn, md_add, md_addc, md_subb,
  opcode_24_add_a_data, opcode_25_add_a_direct, opcode_26_add_a_ri, opcode_28_add_a_rn,
  opcode_34_addc_a_data, opcode_35_addc_a_direct, opcode_36_addc_a_ri, opcode_38_addc_a_rn,
  opcode_94_subb_a_data, opcode_95_subb_a_direct, opcode_96_subb_a_ri, opcode_98_subb_a_rn,
  opcode_84_div_ab, opcode_a3_inc_dptr, opcode_a4_mul_ab, opcode_d4_da_a,
}
use dacrs.Vm.Closure.Writes.{Writes, writes}

module _ {ext : Bool} where
  pub opcode_04_inc_a-Writes : (vm : Vm) → Writes ext vm (opcode_04_inc_a vm)
  unfolding opcode_04_inc_a
  opcode_04_inc_a-Writes vm = search writes depth 9

  pub opcode_05_inc_direct-Writes : (vm : Vm) → Writes ext vm (opcode_05_inc_direct vm)
  unfolding opcode_05_inc_direct
  opcode_05_inc_direct-Writes vm = search writes depth 9

  pub opcode_06_inc_ri-Writes : (n : ℕ) (vm : Vm) → Writes ext vm (opcode_06_inc_ri n vm)
  unfolding opcode_06_inc_ri
  opcode_06_inc_ri-Writes n vm = search writes depth 9

  pub opcode_08_inc_rn-Writes : (n : ℕ) (vm : Vm) → Writes ext vm (opcode_08_inc_rn n vm)
  unfolding opcode_08_inc_rn
  opcode_08_inc_rn-Writes n vm = search writes depth 9

  pub opcode_14_dec_a-Writes : (vm : Vm) → Writes ext vm (opcode_14_dec_a vm)
  unfolding opcode_14_dec_a
  opcode_14_dec_a-Writes vm = search writes depth 9

  pub opcode_15_dec_direct-Writes : (vm : Vm) → Writes ext vm (opcode_15_dec_direct vm)
  unfolding opcode_15_dec_direct
  opcode_15_dec_direct-Writes vm = search writes depth 9

  pub opcode_16_dec_ri-Writes : (n : ℕ) (vm : Vm) → Writes ext vm (opcode_16_dec_ri n vm)
  unfolding opcode_16_dec_ri
  opcode_16_dec_ri-Writes n vm = search writes depth 9

  pub opcode_18_dec_rn-Writes : (n : ℕ) (vm : Vm) → Writes ext vm (opcode_18_dec_rn n vm)
  unfolding opcode_18_dec_rn
  opcode_18_dec_rn-Writes n vm = search writes depth 9

  pub md_add-Writes : (n : ℕ) (vm : Vm) → Writes ext vm (md_add n vm)
  unfolding md_add
  md_add-Writes n vm = search writes depth 9

  pub md_addc-Writes : (n : ℕ) (vm : Vm) → Writes ext vm (md_addc n vm)
  unfolding md_addc
  md_addc-Writes n vm = search writes depth 9

  pub md_subb-Writes : (n : ℕ) (vm : Vm) → Writes ext vm (md_subb n vm)
  unfolding md_subb
  md_subb-Writes n vm = search writes depth 9

  pub opcode_24_add_a_data-Writes : (vm : Vm) → Writes ext vm (opcode_24_add_a_data vm)
  unfolding opcode_24_add_a_data
  opcode_24_add_a_data-Writes vm = search (writes, md_add-Writes) depth 9

  pub opcode_25_add_a_direct-Writes : (vm : Vm) → Writes ext vm (opcode_25_add_a_direct vm)
  unfolding opcode_25_add_a_direct
  opcode_25_add_a_direct-Writes vm = search (writes, md_add-Writes) depth 9

  pub opcode_26_add_a_ri-Writes : (n : ℕ) (vm : Vm) → Writes ext vm (opcode_26_add_a_ri n vm)
  unfolding opcode_26_add_a_ri
  opcode_26_add_a_ri-Writes n vm = search (writes, md_add-Writes) depth 9

  pub opcode_28_add_a_rn-Writes : (n : ℕ) (vm : Vm) → Writes ext vm (opcode_28_add_a_rn n vm)
  unfolding opcode_28_add_a_rn
  opcode_28_add_a_rn-Writes n vm = search (writes, md_add-Writes) depth 9

  pub opcode_34_addc_a_data-Writes : (vm : Vm) → Writes ext vm (opcode_34_addc_a_data vm)
  unfolding opcode_34_addc_a_data
  opcode_34_addc_a_data-Writes vm = search (writes, md_addc-Writes) depth 9

  pub opcode_35_addc_a_direct-Writes : (vm : Vm) → Writes ext vm (opcode_35_addc_a_direct vm)
  unfolding opcode_35_addc_a_direct
  opcode_35_addc_a_direct-Writes vm = search (writes, md_addc-Writes) depth 9

  pub opcode_36_addc_a_ri-Writes : (n : ℕ) (vm : Vm) → Writes ext vm (opcode_36_addc_a_ri n vm)
  unfolding opcode_36_addc_a_ri
  opcode_36_addc_a_ri-Writes n vm = search (writes, md_addc-Writes) depth 9

  pub opcode_38_addc_a_rn-Writes : (n : ℕ) (vm : Vm) → Writes ext vm (opcode_38_addc_a_rn n vm)
  unfolding opcode_38_addc_a_rn
  opcode_38_addc_a_rn-Writes n vm = search (writes, md_addc-Writes) depth 9

  pub opcode_94_subb_a_data-Writes : (vm : Vm) → Writes ext vm (opcode_94_subb_a_data vm)
  unfolding opcode_94_subb_a_data
  opcode_94_subb_a_data-Writes vm = search (writes, md_subb-Writes) depth 9

  pub opcode_95_subb_a_direct-Writes : (vm : Vm) → Writes ext vm (opcode_95_subb_a_direct vm)
  unfolding opcode_95_subb_a_direct
  opcode_95_subb_a_direct-Writes vm = search (writes, md_subb-Writes) depth 9

  pub opcode_96_subb_a_ri-Writes : (n : ℕ) (vm : Vm) → Writes ext vm (opcode_96_subb_a_ri n vm)
  unfolding opcode_96_subb_a_ri
  opcode_96_subb_a_ri-Writes n vm = search (writes, md_subb-Writes) depth 9

  pub opcode_98_subb_a_rn-Writes : (n : ℕ) (vm : Vm) → Writes ext vm (opcode_98_subb_a_rn n vm)
  unfolding opcode_98_subb_a_rn
  opcode_98_subb_a_rn-Writes n vm = search (writes, md_subb-Writes) depth 9

  pub opcode_84_div_ab-Writes : (vm : Vm) → Writes ext vm (opcode_84_div_ab vm)
  unfolding opcode_84_div_ab
  opcode_84_div_ab-Writes vm = search writes depth 9

  pub opcode_a3_inc_dptr-Writes : (vm : Vm) → Writes ext vm (opcode_a3_inc_dptr vm)
  unfolding opcode_a3_inc_dptr
  opcode_a3_inc_dptr-Writes vm = search writes depth 9

  pub opcode_a4_mul_ab-Writes : (vm : Vm) → Writes ext vm (opcode_a4_mul_ab vm)
  unfolding opcode_a4_mul_ab
  opcode_a4_mul_ab-Writes vm = search writes depth 9

  pub opcode_d4_da_a-Writes : (vm : Vm) → Writes ext vm (opcode_d4_da_a vm)
  unfolding opcode_d4_da_a
  opcode_d4_da_a-Writes vm = search writes depth 20

pub ruleset arith_writes = (
  opcode_04_inc_a-Writes, opcode_05_inc_direct-Writes, opcode_06_inc_ri-Writes,
  opcode_08_inc_rn-Writes, opcode_14_dec_a-Writes, opcode_15_dec_direct-Writes,
  opcode_16_dec_ri-Writes, opcode_18_dec_rn-Writes, md_add-Writes, md_addc-Writes, md_subb-Writes,
  opcode_24_add_a_data-Writes, opcode_25_add_a_direct-Writes, opcode_26_add_a_ri-Writes,
  opcode_28_add_a_rn-Writes, opcode_34_addc_a_data-Writes, opcode_35_addc_a_direct-Writes,
  opcode_36_addc_a_ri-Writes, opcode_38_addc_a_rn-Writes, opcode_94_subb_a_data-Writes,
  opcode_95_subb_a_direct-Writes, opcode_96_subb_a_ri-Writes, opcode_98_subb_a_rn-Writes,
  opcode_84_div_ab-Writes, opcode_a3_inc_dptr-Writes, opcode_a4_mul_ab-Writes,
  opcode_d4_da_a-Writes,
)
