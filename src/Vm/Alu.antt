-- ===== src/Vm/Alu.antt =====
-- ADD, ADDC and SUBB (`MD_ADD`, `MD_ADDC`, `MD_SUBB` of src/vm/vm8051.cpp) against the arithmetic
-- of numbers: what a sum and a difference leave in the accumulator and the flags.
pub mod Add
pub mod Subtract
pub mod Product
pub mod Decimal
use dacrs.Base.{ℕ, ◌+◌, ◌-◌, ◌*◌, ◌<◌, ◌≡◌, ◌↔◌, ltb, if◌then◌else◌}
use dacrs.Base.Int.{ℤ, pos, negsuc, ◌+ℤ◌, ◌-ℤ◌}
use dacrs.Base.Words.{low_bits}
use dacrs.Vm.State.{Vm, sys_a, sys_psw, psw_cy, psw_ac, psw_ov}

-- The accumulator, the operand and the flags in their ranges.
pub record AluInput (d : ℕ) (vm : Vm) : Type 0 where
  pub a_byte : sys_a vm < 256
  pub psw_byte : sys_psw vm < 256
  pub operand_byte : d < 256

-- A byte read as an int8_t.
abbrev pub signed8 : ℕ → ℤ
signed8 x = if ltb x 128 then pos x else negsuc (255 - x)

-- The sum of `a`, `d` and a carry `c` that went in: the carries out of bit 7 and bit 3 stand in CY
-- and AC, and OV tells whether the signed sum is lost.
pub record Added (a d c : ℕ) (w : Vm) : Type 0 where
  pub sum : psw_cy w * 256 + sys_a w ≡ a + d + c
  pub half_sum : psw_ac w * 16 + low_bits (sys_a w) 4 ≡ low_bits a 4 + low_bits d 4 + c
  pub overflow : (psw_ov w ≡ 0) ↔ (signed8 (sys_a w) ≡ signed8 a +ℤ signed8 d +ℤ pos c)

-- The difference of `a` and `d` with a borrow `c` that went in.
pub record Subtracted (a d c : ℕ) (w : Vm) : Type 0 where
  pub difference : sys_a w + d + c ≡ psw_cy w * 256 + a
  pub half_difference : low_bits (sys_a w) 4 + low_bits d 4 + c ≡ psw_ac w * 16 + low_bits a 4
  pub overflow : (psw_ov w ≡ 0) ↔ (signed8 (sys_a w) ≡ signed8 a -ℤ signed8 d -ℤ pos c)
