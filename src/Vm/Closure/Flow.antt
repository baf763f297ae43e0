-- ===== src/Vm/Closure/Flow.antt =====
-- The jumps, calls and returns of src/vm/vm8051.cpp, read as writes.
use dacrs.Base.{ℕ, Bool}
use dacrs.Vm.State.{Vm}
use dacrs.Vm.Ops.Flow.{
  acall, opcode_01_ajmp_addr11, opcode_02_ljmp_addr16, opcode_12_lcall_addr16, opcode_22_ret,
  opcode_32_reti, opcode_10_jbc_bit_rel, opcode_20_jb_bit_rel, opcode_30_jnb_bit_rel,
  opcode_40_jc_rel, opcode_50_jnc_rel, opcode_60_jz_rel, opcode_70_jnz_rel, opcode_73_jmp_a_dptr,
  opcode_80_sjmp_rel, opcode_b4_cjne_a_data_rel, opcode_b5_cjne_a_direct_rel,
  opcode_b6_cjne_ri_data_rel, opcode_b8_cjne_rn_data_rel, opcode_d5_djnz_direct_rel,
  opcode_d8_djnz_rn_rel,
}
use dacrs.Vm.Closure.Writes.{Writes, writes}

module _ {ext : Bool} where
  pub acall-Writes : (n : ℕ) (vm : Vm) → Writes ext vm (acall n vm)
  unfolding acall
  acall-Writes n vm = search writes depth 20

  pub opcode_01_ajmp_addr11-Writes : (n : ℕ) (vm : Vm) → Writes ext vm (opcode_01_ajmp_addr11 n vm)
  unfolding opcode_01_ajmp_addr11
  opcode_01_ajmp_addr11-Writes n vm = search writes depth 9

  pub opcode_02_ljmp_addr16-Writes : (vm : Vm) → Writes ext vm (opcode_02_ljmp_addr16 vm)
  unfolding opcode_02_ljmp_addr16
  opcode_02_ljmp_addr16-Writes vm = search writes depth 9

  pub opcode_12_lcall_addr16-Writes : (vm : Vm) → Writes ext vm (opcode_12_lcall_addr16 vm)
  unfolding opcode_12_lcall_addr16
  opcode_12_lcall_addr16-Writes vm = search writes depth 20

  pub opcode_22_ret-Writes : (vm : Vm) → Writes ext vm (opcode_22_ret vm)
  unfolding opcode_22_ret
  opcode_22_ret-Writes vm = search writes depth 20

  pub opcode_32_reti-Writes : (vm : Vm) → Writes ext vm (opcode_32_reti vm)
  unfolding opcode_32_reti
  opcode_32_reti-Writes vm = search writes depth 20

  pub opcode_10_jbc_bit_rel-Writes : (vm : Vm) → Writes ext vm (opcode_10_jbc_bit_rel vm)
  unfolding opcode_10_jbc_bit_rel
  opcode_10_jbc_bit_rel-Writes vm = search writes depth 9

  pub opcode_20_jb_bit_rel-Writes : (vm : Vm) → Writes ext vm (opcode_20_jb_bit_rel vm)
  unfolding opcode_20_jb_bit_rel
  opcode_20_jb_bit_rel-Writes vm = search writes depth 9

  pub opcode_30_jnb_bit_rel-Writes : (vm : Vm) → Writes ext vm (opcode_30_jnb_bit_rel vm)
  unfolding opcode_30_jnb_bit_rel
  opcode_30_jnb_bit_rel-Writes vm = search writes depth 9

  pub opcode_40_jc_rel-Writes : (vm : Vm) → Writes ext vm (opcode_40_jc_rel vm)
  unfolding opcode_40_jc_rel
  opcode_40_jc_rel-Writes vm = search writes depth 9

  pub opcode_50_jnc_rel-Writes : (vm : Vm) → Writes ext vm (opcode_50_jnc_rel vm)
  unfolding opcode_50_jnc_rel
  opcode_50_jnc_rel-Writes vm = search writes depth 9

  pub opcode_60_jz_rel-Writes : (vm : Vm) → Writes ext vm (opcode_60_jz_rel vm)
  unfolding opcode_60_jz_rel
  opcode_60_jz_rel-Writes vm = search writes depth 9

  pub opcode_70_jnz_rel-Writes : (vm : Vm) → Writes ext vm (opcode_70_jnz_rel vm)
  unfolding opcode_70_jnz_rel
  opcode_70_jnz_rel-Writes vm = search writes depth 9

  pub opcode_73_jmp_a_dptr-Writes : (vm : Vm) → Writes ext vm (opcode_73_jmp_a_dptr vm)
  unfolding opcode_73_jmp_a_dptr
  opcode_73_jmp_a_dptr-Writes vm = search writes depth 9

  pub opcode_80_sjmp_rel-Writes : (vm : Vm) → Writes ext vm (opcode_80_sjmp_rel vm)
  unfolding opcode_80_sjmp_rel
  opcode_80_sjmp_rel-Writes vm = search writes depth 9

  pub opcode_b4_cjne_a_data_rel-Writes : (vm : Vm) → Writes ext vm (opcode_b4_cjne_a_data_rel vm)
  unfolding opcode_b4_cjne_a_data_rel
  opcode_b4_cjne_a_data_rel-Writes vm = search writes depth 9

  pub opcode_b5_cjne_a_direct_rel-Writes :
      (vm : Vm) → Writes ext vm (opcode_b5_cjne_a_direct_rel vm)
  unfolding opcode_b5_cjne_a_direct_rel
  opcode_b5_cjne_a_direct_rel-Writes vm = search writes depth 9

  pub opcode_b6_cjne_ri_data_rel-Writes :
      (n : ℕ) (vm : Vm) → Writes ext vm (opcode_b6_cjne_ri_data_rel n vm)
  unfolding opcode_b6_cjne_ri_data_rel
  opcode_b6_cjne_ri_data_rel-Writes n vm = search writes depth 9

  pub opcode_b8_cjne_rn_data_rel-Writes :
      (n : ℕ) (vm : Vm) → Writes ext vm (opcode_b8_cjne_rn_data_rel n vm)
  unfolding opcode_b8_cjne_rn_data_rel
  opcode_b8_cjne_rn_data_rel-Writes n vm = search writes depth 9

  pub opcode_d5_djnz_direct_rel-Writes : (vm : Vm) → Writes ext vm (opcode_d5_djnz_direct_rel vm)
  unfolding opcode_d5_djnz_direct_rel
  opcode_d5_djnz_direct_rel-Writes vm = search writes depth 9

  pub opcode_d8_djnz_rn_rel-Writes : (n : ℕ) (vm : Vm) → Writes ext vm (opcode_d8_djnz_rn_rel n vm)
  unfolding opcode_d8_djnz_rn_rel
  opcode_d8_djnz_rn_rel-Writes n vm = search writes depth 9

pub ruleset flow_writes = (
  acall-Writes, opcode_01_ajmp_addr11-Writes, opcode_02_ljmp_addr16-Writes,
  opcode_12_lcall_addr16-Writes, opcode_22_ret-Writes, opcode_32_reti-Writes,
  opcode_10_jbc_bit_rel-Writes, opcode_20_jb_bit_rel-Writes, opcode_30_jnb_bit_rel-Writes,
  opcode_40_jc_rel-Writes, opcode_50_jnc_rel-Writes, opcode_60_jz_rel-Writes,
  opcode_70_jnz_rel-Writes, opcode_73_jmp_a_dptr-Writes, opcode_80_sjmp_rel-Writes,
  opcode_b4_cjne_a_data_rel-Writes, opcode_b5_cjne_a_direct_rel-Writes,
  opcode_b6_cjne_ri_data_rel-Writes, opcode_b8_cjne_rn_data_rel-Writes,
  opcode_d5_djnz_direct_rel-Writes, opcode_d8_djnz_rn_rel-Writes,
)
