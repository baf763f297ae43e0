-- ===== src/Vm/Alu/Product.antt =====
-- MUL AB and DIV AB of src/vm/vm8051.h.
use dacrs.Base.{ℕ, ◌+◌, ◌*◌, ◌/◌, ◌%◌, ◌<◌, ◌≤◌, ◌≡◌, inl, inr, arith, ltb, ◌==◌, Bool-cases}
use native.Mathlib.Nat.{div-add-mod'}
use dacrs.Base.Words.{to_flag}
use dacrs.Vm.State.{Vm, sys_a, sys_b, psw_cy, psw_ov, set_ov, set_cy, set_a, set_b, advance}
use dacrs.Vm.Ops.Arith.{opcode_84_div_ab, opcode_a4_mul_ab}
use dacrs.Vm.Alu.{AluInput}

-- B is the high byte of the product of `a` and `b`, A the low one, OV tells whether B is needed.
pub record Multiplied (a b : ℕ) (w : Vm) : Type 0 where
  pub product : sys_b w * 256 + sys_a w ≡ a * b
  pub overflow : psw_ov w ≡ to_flag (ltb 255 (a * b))

-- A is the quotient and B the rest, or OV is set and nothing is divided.
pub data Divided (a b : ℕ) (w : Vm) : Type 0 where
  quotient : sys_a w * b + sys_b w ≡ a → sys_b w < b → psw_ov w ≡ 0 → psw_cy w ≡ 0 → Divided a b w
  by_zero : b ≡ 0 → sys_a w ≡ a → sys_b w ≡ b → psw_ov w ≡ 1 → psw_cy w ≡ 0 → Divided a b w

product_bound : (a b : ℕ) → a < 256 → b < 256 → a * b < 65536
product_bound a b h k = grind arith

opcode_a4_mul_ab-product :
    (vm : Vm)
    → AluInput (sys_b vm) vm
    → sys_a vm * sys_b vm < 65536
    → sys_b (opcode_a4_mul_ab vm) * 256 + sys_a (opcode_a4_mul_ab vm) ≡ sys_a vm * sys_b vm
unfolding opcode_a4_mul_ab set_a set_b set_ov advance
opcode_a4_mul_ab-product vm v small = ground arith

opcode_a4_mul_ab-overflow :
    (vm : Vm)
    → AluInput (sys_b vm) vm
    → psw_ov (opcode_a4_mul_ab vm) ≡ to_flag (ltb 255 (sys_a vm * sys_b vm))
unfolding opcode_a4_mul_ab set_a set_b set_ov advance
opcode_a4_mul_ab-overflow vm v = ground arith

-- MUL AB leaves the product of A and B in B and A, and OV tells whether it exceeds a byte.
pub opcode_a4_mul_ab-Multiplied :
    (vm : Vm) → AluInput (sys_b vm) vm → Multiplied (sys_a vm) (sys_b vm) (opcode_a4_mul_ab vm)
opcode_a4_mul_ab-Multiplied vm v = record {
  product = opcode_a4_mul_ab-product vm v (product_bound _ _ v.a_byte v.operand_byte);
  overflow = opcode_a4_mul_ab-overflow vm v;
}

divided_by : (a b : ℕ) → 0 < b → (a / b * b + a % b ≡ a) × (a % b < b) × (a / b ≤ a)
divided_by a b h = grind (arith, div-add-mod' a b)

-- DIV AB leaves the quotient of A by B in A and the rest in B, with OV and CY reset; by zero it
-- changes neither and sets OV.
pub opcode_84_div_ab-Divided :
    (vm : Vm) → AluInput (sys_b vm) vm → Divided (sys_a vm) (sys_b vm) (opcode_84_div_ab vm)
unfolding opcode_84_div_ab set_a set_b set_ov set_cy advance
opcode_84_div_ab-Divided vm v = elim (Bool-cases (sys_b vm == 0)) [
  | inl z ↦ by_zero (ground arith) (ground arith) (ground arith) (ground arith) (ground arith)
  | inr z ↦
      let parts = divided_by (sys_a vm) (sys_b vm) (ground arith) in
      quotient (ground arith) (ground arith) (ground arith) (ground arith)
]
