-- ===== src/Vm/Alu/Subtract.antt =====
-- `MD_SUBB` of src/vm/vm8051.cpp.
use dacrs.Base.{
  Bool, true, false, refl, ◌∙◌, ℕ, ◌+◌, ◌-◌, ◌*◌, ◌%◌, ◌<◌, ◌≡◌, ◌↔◌, ltb, ◌==◌, arith,
}
use dacrs.Base.Int.{pos, ◌-ℤ◌}
use dacrs.Base.Words.{low_bits, to_flag, bit_of, with_bit, int8u}
use dacrs.Vm.State.{Vm, sys_a, sys_psw, psw_cy, psw_ac, psw_ov, set_ov, set_ac, set_cy, set_a}
use dacrs.Vm.Ops.Arith.{md_subb}
use dacrs.Vm.Alu.{AluInput, signed8, Subtracted}

-- `flagac == 1`, from the borrows into bit 7 and out of it.
borrow_flag : ℕ → ℕ → ℕ → ℕ
borrow_flag a d c =
    to_flag (to_flag (ltb a (d + c)) + to_flag (ltb (low_bits a 7) (low_bits d 7 + c)) == 1)

borrow_flag-signed :
    (a d c : ℕ)
    → a < 256
    → d < 256
    → c < 2
    → (borrow_flag a d c ≡ 0)
      ↔ (signed8 ((a + 512 - d - c) % 256) ≡ signed8 a -ℤ signed8 d -ℤ pos c)
unfolding borrow_flag ◌-ℤ◌
borrow_flag-signed a d c ha hd hc = (λ e. ground arith, λ e. ground arith)

borrow_flag-lt : (a d c : ℕ) → borrow_flag a d c < 2
unfolding borrow_flag
borrow_flag-lt a d c = ground arith

md_subb-result :
    (d : ℕ) (vm : Vm)
    → AluInput d vm
    → (sys_a (md_subb d vm) ≡ (sys_a vm + 512 - d - psw_cy vm) % 256)
      × (psw_ov (md_subb d vm) ≡ borrow_flag (sys_a vm) d (psw_cy vm))
unfolding md_subb set_a set_ov set_cy set_ac borrow_flag
md_subb-result d vm v = (ground arith, ground arith)

md_subb-difference :
    (d : ℕ) (vm : Vm)
    → AluInput d vm
    → sys_a (md_subb d vm) + d + psw_cy vm ≡ psw_cy (md_subb d vm) * 256 + sys_a vm
unfolding md_subb set_a set_ov set_cy set_ac
md_subb-difference d vm v = ground arith

half_borrow : ℕ → ℕ → ℕ → ℕ
half_borrow a d c = to_flag (ltb (low_bits a 4) (low_bits d 4 + c))

half_borrow_lem :
    (a d c : ℕ)
    → a < 256
    → d < 256
    → c < 2
    → low_bits ((a + 512 - d - c) % 256) 4 + low_bits d 4 + c
      ≡ half_borrow a d c * 16 + low_bits a 4
unfolding half_borrow
half_borrow_lem a d c ha hd hc = ground arith

-- PSW after the writes of AC, CY, OV and P, in this order.
flags-psw_ac :
    (psw x y z p : ℕ)
    → psw < 256
    → bit_of
        (int8u
          (with_bit (int8u (with_bit (int8u (with_bit (int8u (with_bit psw 6 x)) 7 y)) 2 z)) 0 p))
        6
      ≡ x % 2
flags-psw_ac psw x y z p h = omega arith

to_flag-mod_two : (b : Bool) → to_flag b % 2 ≡ to_flag b
to_flag-mod_two true = refl
to_flag-mod_two false = refl

md_subb-psw_ac :
    (d : ℕ) (vm : Vm) → AluInput d vm → psw_ac (md_subb d vm) ≡ half_borrow (sys_a vm) d (psw_cy vm)
unfolding md_subb set_a set_ov set_cy set_ac half_borrow
md_subb-psw_ac d vm v =
    flags-psw_ac (sys_psw vm) _ _ _ _ v.psw_byte
    ∙ to_flag-mod_two (ltb (low_bits (sys_a vm) 4) (low_bits d 4 + psw_cy vm))

md_subb-half_difference :
    (d : ℕ) (vm : Vm)
    → AluInput d vm
    → low_bits (sys_a (md_subb d vm)) 4 + low_bits d 4 + psw_cy vm
      ≡ psw_ac (md_subb d vm) * 16 + low_bits (sys_a vm) 4
md_subb-half_difference d vm v =
    rw ((md_subb-result d vm v).0, md_subb-psw_ac d vm v)
      (half_borrow_lem (sys_a vm) d (psw_cy vm) v.a_byte v.operand_byte (omega arith))

-- SUBB sets the accumulator, CY, AC and OV as the difference with the borrow in CY asks.
pub md_subb-Subtracted :
    (d : ℕ) (vm : Vm) → AluInput d vm → Subtracted (sys_a vm) d (psw_cy vm) (md_subb d vm)
md_subb-Subtracted d vm v = record {
  difference = md_subb-difference d vm v;
  half_difference = md_subb-half_difference d vm v;
  overflow = rw (md_subb-result d vm v).1 (
      rw (md_subb-result d vm v).0
        (borrow_flag-signed (sys_a vm) d (psw_cy vm) v.a_byte v.operand_byte (omega arith)));
}
