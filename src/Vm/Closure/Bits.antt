-- ===== src/Vm/Closure/Bits.antt =====
-- The instructions on single bits of src/vm/vm8051.cpp, read as writes.
use dacrs.Base.{Bool}
use dacrs.Vm.State.{Vm}
use dacrs.Vm.Ops.Bits.{
  opcode_72_orl_c_direct, opcode_82_anl_c_bit, opcode_92_mov_bit_c, opcode_a0_orl_c_bit,
  opcode_a2_mov_c_bit, opcode_b0_anl_c_bit_1, opcode_b2_cpl_bit, opcode_b3_cpl_c, opcode_c2_clr_bit,
  opcode_c3_clr_c, opcode_d2_setb_bit, opcode_d3_setb_c,
}
use dacrs.Vm.Closure.Writes.{Writes, writes}

module _ {ext : Bool} where
  pub opcode_72_orl_c_direct-Writes : (vm : Vm) → Writes ext vm (opcode_72_orl_c_direct vm)
  unfolding opcode_72_orl_c_direct
  opcode_72_orl_c_direct-Writes vm = search writes depth 9

  pub opcode_82_anl_c_bit-Writes : (vm : Vm) → Writes ext vm (opcode_82_anl_c_bit vm)
  unfolding opcode_82_anl_c_bit
  opcode_82_anl_c_bit-Writes vm = search writes depth 9

  pub opcode_92_mov_bit_c-Writes : (vm : Vm) → Writes ext vm (opcode_92_mov_bit_c vm)
  unfolding opcode_92_mov_bit_c
  opcode_92_mov_bit_c-Writes vm = search writes depth 9

  pub opcode_a0_orl_c_bit-Writes : (vm : Vm) → Writes ext vm (opcode_a0_orl_c_bit vm)
  unfolding opcode_a0_orl_c_bit
  opcode_a0_orl_c_bit-Writes vm = search writes depth 9

  pub opcode_a2_mov_c_bit-Writes : (vm : Vm) → Writes ext vm (opcode_a2_mov_c_bit vm)
  unfolding opcode_a2_mov_c_bit
  opcode_a2_mov_c_bit-Writes vm = search writes depth 9

  pub opcode_b0_anl_c_bit_1-Writes : (vm : Vm) → Writes ext vm (opcode_b0_anl_c_bit_1 vm)
  unfolding opcode_b0_anl_c_bit_1
  opcode_b0_anl_c_bit_1-Writes vm = search writes depth 9

  pub opcode_b2_cpl_bit-Writes : (vm : Vm) → Writes ext vm (opcode_b2_cpl_bit vm)
  unfolding opcode_b2_cpl_bit
  opcode_b2_cpl_bit-Writes vm = search writes depth 9

  pub opcode_b3_cpl_c-Writes : (vm : Vm) → Writes ext vm (opcode_b3_cpl_c vm)
  unfolding opcode_b3_cpl_c
  opcode_b3_cpl_c-Writes vm = search writes depth 9

  pub opcode_c2_clr_bit-Writes : (vm : Vm) → Writes ext vm (opcode_c2_clr_bit vm)
  unfolding opcode_c2_clr_bit
  opcode_c2_clr_bit-Writes vm = search writes depth 9

  pub opcode_c3_clr_c-Writes : (vm : Vm) → Writes ext vm (opcode_c3_clr_c vm)
  unfolding opcode_c3_clr_c
  opcode_c3_clr_c-Writes vm = search writes depth 9

  pub opcode_d2_setb_bit-Writes : (vm : Vm) → Writes ext vm (opcode_d2_setb_bit vm)
  unfolding opcode_d2_setb_bit
  opcode_d2_setb_bit-Writes vm = search writes depth 9

  pub opcode_d3_setb_c-Writes : (vm : Vm) → Writes ext vm (opcode_d3_setb_c vm)
  unfolding opcode_d3_setb_c
  opcode_d3_setb_c-Writes vm = search writes depth 9

pub ruleset bits_writes = (
  opcode_72_orl_c_direct-Writes, opcode_82_anl_c_bit-Writes, opcode_92_mov_bit_c-Writes,
  opcode_a0_orl_c_bit-Writes, opcode_a2_mov_c_bit-Writes, opcode_b0_anl_c_bit_1-Writes,
  opcode_b2_cpl_bit-Writes, opcode_b3_cpl_c-Writes, opcode_c2_clr_bit-Writes,
  opcode_c3_clr_c-Writes, opcode_d2_setb_bit-Writes, opcode_d3_setb_c-Writes,
)
