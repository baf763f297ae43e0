-- ===== src/Vm/Alu/Decimal.antt =====
-- DA A behind ADD (src/vm/vm8051.cpp: `Opcode_D4_DA_A`).
use dacrs.Base.{
  refl, ℕ, ◌+◌, ◌*◌, ◌/◌, ◌%◌, ◌<◌, ◌≡◌, arith, ltb, ◌||◌, ◌==◌, if◌then◌else◌, Bool-cases, inl,
  inr, ◌∙◌, ap, ap₂, bit_or,
}
use dacrs.Base.Words.{low_bits, shr, to_flag, int8u}
use dacrs.Base.Bits.{bit_or-high_low, bit_or_comm}
use dacrs.Vm.State.{Vm, sys_psw, sys_a, psw_cy, psw_ac, set_a, advance}
use dacrs.Vm.Ops.Arith.{md_add, da_low, da_high, opcode_d4_da_a}
use dacrs.Vm.Alu.{AluInput}
use dacrs.Vm.Alu.Add.{md_add-Added}

-- A digit with the carry behind it, brought back below ten.
abbrev pub corrected : ℕ → ℕ → ℕ
corrected digit carry = if ltb 9 digit || (carry == 1) then (digit + 6) % 16 else digit

sys_a-set_a : (x : ℕ) (vm : Vm) → sys_a (set_a x vm) ≡ int8u x
unfolding set_a
sys_a-set_a x vm = ground arith

psw_cy-set_a : (x : ℕ) (vm : Vm) → psw_cy (set_a x vm) ≡ psw_cy vm
unfolding set_a
psw_cy-set_a x vm = ground arith

digits_joined :
    (high low : ℕ) → high < 16 → low < 16 → bit_or (high * 16 % 256) low % 256 ≡ high * 16 + low
digits_joined high low h l =
    ap (λ x. bit_or x low % 256) (in_byte high h)
    ∙ ap (λ x. x % 256) (bit_or-high_low 4 high low l)
    ∙ omega arith
  where
    in_byte : (x : ℕ) → x < 16 → x * 16 % 256 ≡ x * 16
    in_byte x k = omega arith

digits_swapped :
    (high low : ℕ) → high < 16 → low < 16 → bit_or (low % 256) (high * 16) % 256 ≡ high * 16 + low
digits_swapped high low h l =
    ap (λ x. bit_or x (high * 16) % 256) (in_byte low l)
    ∙ ap (λ x. x % 256) (bit_or_comm low (high * 16) ∙ bit_or-high_low 4 high low l)
    ∙ omega arith
  where
    in_byte : (x : ℕ) → x < 16 → x % 256 ≡ x
    in_byte x k = omega arith

da_low-digits :
    (vm : Vm)
    → sys_a vm < 256
    → sys_a (da_low vm) ≡ sys_a vm / 16 * 16 + corrected (sys_a vm % 16) (psw_ac vm)
unfolding da_low
da_low-digits vm small = elim (Bool-cases (ltb 9 (low_bits (sys_a vm) 4) || (psw_ac vm == 1))) [
  | inr e ↦ rw (da_low, e) (omega arith)
  | inl e ↦
      rw (da_low, e, sys_a-set_a, sys_a-set_a)
        (digits_joined (sys_a vm / 16) ((sys_a vm % 16 + 6) % 16) (omega arith) (omega arith))
]

psw_cy-da_low : (vm : Vm) → psw_cy (da_low vm) ≡ psw_cy vm
unfolding da_low set_a
psw_cy-da_low vm = ground arith

da_high-digits :
    (vm : Vm)
    → sys_a vm < 256
    → sys_a (da_high vm) ≡ corrected (sys_a vm / 16) (psw_cy vm) * 16 + sys_a vm % 16
unfolding da_high
da_high-digits vm small = elim (Bool-cases (ltb 9 (shr (sys_a vm) 4) || (psw_cy vm == 1))) [
  | inr e ↦ rw (da_high, e) (omega arith)
  | inl e ↦
      rw (da_high, e, sys_a-set_a, sys_a-set_a)
        (digits_swapped ((sys_a vm / 16 + 6) % 16) (sys_a vm % 16) (omega arith) (omega arith))
]

sys_a-da : (vm : Vm) → sys_a (opcode_d4_da_a vm) ≡ sys_a (da_high (da_low vm))
unfolding opcode_d4_da_a advance
sys_a-da vm = refl

corrected_low : (digit carry : ℕ) → digit < 16 → corrected digit carry < 16
corrected_low digit carry h = ground arith

-- DA A corrects each of the two digits of the accumulator by itself, from AC and CY.
opcode_d4_da_a-digits :
    (vm : Vm)
    → sys_a vm < 256
    → sys_a (opcode_d4_da_a vm)
      ≡ corrected (sys_a vm / 16) (psw_cy vm) * 16 + corrected (sys_a vm % 16) (psw_ac vm)
opcode_d4_da_a-digits vm small =
    sys_a-da vm
    ∙ da_high-digits (da_low vm)
        (omega (arith, da_low-digits vm small, corrected_low (sys_a vm % 16) (psw_ac vm)))
    ∙ ap₂ (λ x c. corrected (x / 16) c * 16 + x % 16) (da_low-digits vm small) (psw_cy-da_low vm)
    ∙ ap₂ (λ h l. corrected h (psw_cy vm) * 16 + l)
        (high_part (sys_a vm / 16) _ (corrected_low (sys_a vm % 16) (psw_ac vm) (omega arith)))
        (low_part (sys_a vm / 16) _ (corrected_low (sys_a vm % 16) (psw_ac vm) (omega arith)))
  where
    high_part : (h l : ℕ) → l < 16 → (h * 16 + l) / 16 ≡ h
    high_part h l k = omega arith

    low_part : (h l : ℕ) → l < 16 → (h * 16 + l) % 16 ≡ l
    low_part h l k = omega arith

md_add-byte : (d : ℕ) (vm : Vm) → sys_a (md_add d vm) < 256
unfolding md_add set_a
md_add-byte d vm = ground arith

-- The arithmetic of the digits: `a` with the carries `cy` and `ac` is the binary sum.
digit_sums :
    (tens units a cy ac : ℕ)
    → tens < 19
    → units < 19
    → a < 256
    → cy < 2
    → ac < 2
    → cy * 256 + a ≡ tens * 16 + units
    → ac * 16 + a % 16 ≡ units
    → corrected (a / 16) cy * 16 + corrected (a % 16) ac
      ≡ (tens + to_flag (ltb 15 units)) % 10 * 16 + units % 10
digit_sums tens units a cy ac t u b c h whole half = ground arith

decimal_input :
    (tens units tens' units' : ℕ) (vm : Vm)
    → tens < 10
    → units < 10
    → tens' < 10
    → units' < 10
    → sys_psw vm < 256
    → sys_a vm ≡ tens * 16 + units
    → AluInput (tens' * 16 + units') vm
decimal_input tens units tens' units' vm t u t' u' psw a = record {
  a_byte = omega arith;
  psw_byte = psw;
  operand_byte = omega arith;
}

-- Two numbers of two decimal digits: ADD and DA A add them digit by digit, and carry from the low
-- digit to the high one only where the low digits are 16 or more together.
pub opcode_d4_da_a-md_add :
    (tens units tens' units' : ℕ) (vm : Vm)
    → tens < 10
    → units < 10
    → tens' < 10
    → units' < 10
    → sys_psw vm < 256
    → sys_a vm ≡ tens * 16 + units
    → sys_a (opcode_d4_da_a (md_add (tens' * 16 + units') vm))
      ≡ (tens + tens' + to_flag (ltb 15 (units + units'))) % 10 * 16 + (units + units') % 10
opcode_d4_da_a-md_add tens units tens' units' vm t u t' u' psw a =
    let input = decimal_input tens units tens' units' vm t u t' u' psw a in
    let w = md_add (tens' * 16 + units') vm in
    let added = md_add-Added (tens' * 16 + units') vm input in
    opcode_d4_da_a-digits w (md_add-byte (tens' * 16 + units') vm)
    ∙ digit_sums (tens + tens') (units + units') (sys_a w) (psw_cy w) (psw_ac w) (omega arith)
        (omega arith) (md_add-byte (tens' * 16 + units') vm) (omega arith) (omega arith)
        (added.sum ∙ omega arith) (added.half_sum ∙ omega arith)
