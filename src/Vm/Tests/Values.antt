-- ===== src/Vm/Tests/Values.antt =====
-- The theorems on single operations of the machine at concrete states.
use dacrs.Base.{
  ◌-◌, ◌%◌, ◌^◌, ◌≡◌, refl, arith, true, false, some, [], ◌∷◌, ◌==◌, if◌then◌else◌, inl, inr,
  get_or,
}
use dacrs.Base.Int.{◌+ℤ◌, ◌-ℤ◌}
use dacrs.Base.Words.{Mem, bit_of}
use dacrs.Vm.State.{Vm, sys_a, sys_b, sys_psw, get_bit_flag, set_bit_flag, clr_bit_flag, set_a}
use dacrs.Vm.Ops.Arith.{md_add, opcode_84_div_ab, opcode_a4_mul_ab, opcode_d4_da_a}
use dacrs.Vm.Alu.{AluInput}
use dacrs.Vm.Alu.Product.{
  Multiplied, Divided, opcode_a4_mul_ab-Multiplied, opcode_84_div_ab-Divided,
}
use dacrs.Vm.Alu.Decimal.{opcode_d4_da_a-md_add}
use dacrs.Vm.Parity.{count_ones, set_a-count_ones}
use dacrs.Vm.BitRam.{HasBytes, get_bit_flag-set_bit_flag, get_bit_flag-clr_bit_flag}
use dacrs.Vm.Share.{encode_item, encode_items, get_data-encode_items}
use dacrs.Vm.Api.{get_data, int64_add, int64_sub, int64_comp}
use dacrs.Vm.Run.{to_int64}
use dacrs.Vm.Amounts.{int64_add-to_int64, int64_sub-to_int64, int64_comp-to_int64}

-- 0x48 in A and 7 in B.
abbrev special : Mem
special i = if i == 0xE0 then 0x48 else (if i == 0xF0 then 7 else 0)

abbrev state : Vm
state = record { chip_ram = λ _. 0; chip_sfr = special; ex_ram = λ _. 0; exe_file = λ _. 0; pc = 0 }

state-AluInput : AluInput (sys_b state) state
state-AluInput = record { a_byte = omega arith; psw_byte = omega arith; operand_byte = omega arith }

state-HasBytes : HasBytes state
state-HasBytes = record { ram = λ i. omega arith; sfr = λ i. ground arith }

opcode_a4_mul_ab-Multiplied_instance : Multiplied 0x48 7 (opcode_a4_mul_ab state)
opcode_a4_mul_ab-Multiplied_instance = opcode_a4_mul_ab-Multiplied state state-AluInput

opcode_84_div_ab-Divided_instance : Divided 0x48 7 (opcode_84_div_ab state)
opcode_84_div_ab-Divided_instance = opcode_84_div_ab-Divided state state-AluInput

-- 48 and 35 in decimal digits: the carry into the tens is lost.
opcode_d4_da_a-md_add_example : sys_a (opcode_d4_da_a (md_add 0x35 state)) ≡ 0x73
opcode_d4_da_a-md_add_example =
    opcode_d4_da_a-md_add 4 8 3 5 state (omega arith) (omega arith) (omega arith) (omega arith)
      (omega arith) refl

set_a-count_ones_instance :
    bit_of (sys_psw (set_a 0x07 state)) 0 ≡ count_ones 8 (sys_a (set_a 0x07 state)) % 2
set_a-count_ones_instance = set_a-count_ones 0x07 state (omega arith)

get_bit_flag-set_bit_flag_example : get_bit_flag 0x21 (set_bit_flag 0x21 state) ≡ true
get_bit_flag-set_bit_flag_example =
    get_bit_flag-set_bit_flag 0x21 0x21 state state-HasBytes (omega arith) (omega arith) (inl refl)

get_bit_flag-clr_bit_flag_instance : get_bit_flag 0xE6 (clr_bit_flag 0xE6 state) ≡ false
get_bit_flag-clr_bit_flag_instance =
    get_bit_flag-clr_bit_flag 0xE6 0xE6 state state-HasBytes (omega arith) (omega arith)
      (inr (λ h. omega arith))

-- Two parameters of one and two bytes at 0xEFFF.
abbrev shared : Mem
shared i = get_or (7 ∷ 0 ∷ 1 ∷ 0 ∷ 5 ∷ 2 ∷ 0 ∷ 6 ∷ 9 ∷ []) (i - 0xEFFF) 0

get_data-encode_items_example : get_data shared 0xEFFF ≡ some ((5 ∷ []) ∷ (6 ∷ 9 ∷ []) ∷ [])
unfolding encode_items encode_item
get_data-encode_items_example =
    get_data-encode_items shared 0xEFFF ((5 ∷ []) ∷ (6 ∷ 9 ∷ []) ∷ []) (omega arith) (omega arith)
      (omega arith) (omega arith)

int64_add-to_int64_instance :
    to_int64 (int64_add 5 (2 ^ 64 - 7)) ≡ to_int64 5 +ℤ to_int64 (2 ^ 64 - 7)
unfolding ◌+ℤ◌
int64_add-to_int64_instance =
    int64_add-to_int64 5 (2 ^ 64 - 7) (omega arith) (omega arith) (omega arith)

int64_sub-to_int64_instance : to_int64 (int64_sub 5 9) ≡ to_int64 5 -ℤ to_int64 9
unfolding ◌-ℤ◌
int64_sub-to_int64_instance = int64_sub-to_int64 5 9 (omega arith) (omega arith) (omega arith)

int64_comp-to_int64_instance : int64_comp (2 ^ 64 - 1) 3 ≡ 1
int64_comp-to_int64_instance = int64_comp-to_int64 (2 ^ 64 - 1) 3 (omega arith) (omega arith)
