-- ===== src/Vm/Alu/Add.antt =====
-- `MD_ADD` and `MD_ADDC` of src/vm/vm8051.cpp.
use dacrs.Base.{ℕ, ◌+◌, ◌*◌, ◌%◌, ◌<◌, ◌≡◌, ◌↔◌, arith}
use dacrs.Base.Int.{pos, ◌+ℤ◌}
use dacrs.Base.Words.{low_bits}
use dacrs.Vm.State.{Vm, sys_a, psw_cy, psw_ac, psw_ov, set_ov, set_ac, set_cy, set_a}
use dacrs.Vm.Ops.Arith.{overflow_flag, md_add, md_addc}
use dacrs.Vm.Alu.{AluInput, signed8, Added}

-- `flagAC == 1` is the overflow of the signed sum.
overflow_flag-signed :
    (a d c : ℕ)
    → a < 256
    → d < 256
    → c < 2
    → (overflow_flag (a + d + c) (low_bits a 7 + low_bits d 7 + c) ≡ 0)
      ↔ (signed8 ((a + d + c) % 256) ≡ signed8 a +ℤ signed8 d +ℤ pos c)
unfolding overflow_flag ◌+ℤ◌
overflow_flag-signed a d c ha hd hc = (λ e. ground arith, λ e. ground arith)

overflow_flag-lt : (x y : ℕ) → overflow_flag x y < 2
unfolding overflow_flag
overflow_flag-lt x y = ground arith

abbrev overflow_at : ℕ → ℕ → ℕ → ℕ
overflow_at a d c = overflow_flag (a + d + c) (low_bits a 7 + low_bits d 7 + c)

md_add-result :
    (d : ℕ) (vm : Vm)
    → AluInput d vm
    → (sys_a (md_add d vm) ≡ (sys_a vm + d + 0) % 256)
      × (psw_ov (md_add d vm) ≡ overflow_at (sys_a vm) d 0)
unfolding md_add set_a set_ov set_cy set_ac
md_add-result d vm v = (
  ground arith,
  ground (arith, overflow_flag-lt (sys_a vm + d) (low_bits (sys_a vm) 7 + low_bits d 7)),
)

md_addc-result :
    (d : ℕ) (vm : Vm)
    → AluInput d vm
    → (sys_a (md_addc d vm) ≡ (sys_a vm + d + psw_cy vm) % 256)
      × (psw_ov (md_addc d vm) ≡ overflow_at (sys_a vm) d (psw_cy vm))
unfolding md_addc set_a set_ov set_cy set_ac
md_addc-result d vm v = (
  ground arith,
  ground (
    arith,
    overflow_flag-lt (sys_a vm + d + psw_cy vm) (low_bits (sys_a vm) 7 + low_bits d 7 + psw_cy vm),
  ),
)

md_add-sum :
    (d : ℕ) (vm : Vm)
    → AluInput d vm
    → psw_cy (md_add d vm) * 256 + sys_a (md_add d vm) ≡ sys_a vm + d + 0
unfolding md_add set_a set_ov set_cy set_ac
md_add-sum d vm v = ground arith

md_add-half_sum :
    (d : ℕ) (vm : Vm)
    → AluInput d vm
    → psw_ac (md_add d vm) * 16 + low_bits (sys_a (md_add d vm)) 4
      ≡ low_bits (sys_a vm) 4 + low_bits d 4 + 0
unfolding md_add set_a set_ov set_cy set_ac
md_add-half_sum d vm v = ground arith

md_addc-sum :
    (d : ℕ) (vm : Vm)
    → AluInput d vm
    → psw_cy (md_addc d vm) * 256 + sys_a (md_addc d vm) ≡ sys_a vm + d + psw_cy vm
unfolding md_addc set_a set_ov set_cy set_ac
md_addc-sum d vm v = ground arith

md_addc-half_sum :
    (d : ℕ) (vm : Vm)
    → AluInput d vm
    → psw_ac (md_addc d vm) * 16 + low_bits (sys_a (md_addc d vm)) 4
      ≡ low_bits (sys_a vm) 4 + low_bits d 4 + psw_cy vm
unfolding md_addc set_a set_ov set_cy set_ac
md_addc-half_sum d vm v = ground arith

-- ADD sets the accumulator, CY, AC and OV as the sum without a carry asks.
pub md_add-Added : (d : ℕ) (vm : Vm) → AluInput d vm → Added (sys_a vm) d 0 (md_add d vm)
md_add-Added d vm v = record {
  sum = md_add-sum d vm v;
  half_sum = md_add-half_sum d vm v;
  overflow = rw (md_add-result d vm v).1 (
      rw (md_add-result d vm v).0
        (overflow_flag-signed (sys_a vm) d 0 v.a_byte v.operand_byte (omega arith)));
}

-- ADDC does so with the carry that the last operation left.
pub md_addc-Added :
    (d : ℕ) (vm : Vm) → AluInput d vm → Added (sys_a vm) d (psw_cy vm) (md_addc d vm)
md_addc-Added d vm v = record {
  sum = md_addc-sum d vm v;
  half_sum = md_addc-half_sum d vm v;
  overflow = rw (md_addc-result d vm v).1 (
      rw (md_addc-result d vm v).0
        (overflow_flag-signed (sys_a vm) d (psw_cy vm) v.a_byte v.operand_byte (omega arith)));
}
