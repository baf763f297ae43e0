-- ===== src/Vm/State.antt =====
-- The machine's memories and registers, and the accessors by which every instruction reads and
-- writes them: src/vm/vm8051.h (CUPReg, CUPSfr, tagpsw, CVm8051) and src/vm/vm8051.cpp.
use dacrs.Base.{
  ℕ, ◌+◌, ◌-◌, ◌*◌, ◌/◌, ◌%◌, ◌^◌, bit_and, bit_or, bit_xor, Bool, not, ◌&&◌, ltb, leb, ◌==◌,
  if◌then◌else◌,
}
use dacrs.Base.Words.{Mem, write, int8u, int16u, low_bits, shr, bit_of, with_bit}

-- `m_ChipRam`, `m_ChipSfr`, `m_ExRam`, `m_ExeFile` and `Sys.PC`. A cell of `exe_file` past 0xFFFF
-- is whatever lies behind the array, which `exe_file[PC + 1]` reads at the last address.
pub record Vm : Type 0 where
  pub chip_ram : Mem
  pub chip_sfr : Mem
  pub ex_ram : Mem
  pub exe_file : Mem
  pub pc : ℕ

abbrev pub a_addr : ℕ
a_addr = 0xE0

abbrev pub b_addr : ℕ
b_addr = 0xF0

abbrev pub sp_addr : ℕ
sp_addr = 0x81

abbrev pub dptrl : ℕ
dptrl = 0x82

abbrev pub dptrh : ℕ
dptrh = 0x83

abbrev pub psw_addr : ℕ
psw_addr = 0xD0

-- `&m_ChipSfr[addr] = data`, which `CUPSfr::operator=` and the byte writes come down to.
unfoldable pub set_sfr : ℕ → ℕ → Vm → Vm
set_sfr addr value vm = record vm { chip_sfr = write vm.chip_sfr addr (int8u value) }

-- `GetRamDataAt` and `SetRamDataAt`: the internal memory, whatever the address.
unfoldable pub get_ram_data_at : ℕ → Vm → ℕ
get_ram_data_at addr vm = vm.chip_ram addr

unfoldable pub set_ram_data_at : ℕ → ℕ → Vm → Vm
set_ram_data_at addr value vm = record vm { chip_ram = write vm.chip_ram addr (int8u value) }

-- Direct addressing: above 0x7F the special function registers.
unfoldable pub get_ram_data : ℕ → Vm → ℕ
get_ram_data addr vm = if ltb 0x7F addr then vm.chip_sfr addr else vm.chip_ram addr

unfoldable pub set_ram_data : ℕ → ℕ → Vm → Vm
unfolding set_sfr set_ram_data_at
set_ram_data addr value vm =
    if ltb 0x7F addr then set_sfr addr value vm else set_ram_data_at addr value vm

unfoldable pub get_ex_ram : ℕ → Vm → ℕ
get_ex_ram addr vm = vm.ex_ram addr

unfoldable pub set_ex_ram : ℕ → ℕ → Vm → Vm
set_ex_ram addr value vm = record vm { ex_ram = write vm.ex_ram addr (int8u value) }

-- `Sys.PC = x` and `Sys.PC += n`, a 16-bit register.
unfoldable pub set_pc : ℕ → Vm → Vm
set_pc x vm = record vm { pc = int16u x }

unfoldable pub advance : ℕ → Vm → Vm
unfolding set_pc
advance n vm = set_pc (vm.pc + n) vm

-- `Sys.PC += (char) rel`: a displacement from -128 to 127.
unfoldable pub branch : ℕ → Vm → Vm
unfolding set_pc
branch rel vm = set_pc (if ltb rel 128 then vm.pc + rel else vm.pc + 65536 + rel - 256) vm

unfoldable pub get_opcode : Vm → ℕ
get_opcode vm = vm.exe_file vm.pc

-- The first and the second byte behind the opcode.
unfoldable pub get_1_opcode : Vm → ℕ
get_1_opcode vm = vm.exe_file (vm.pc + 1)

unfoldable pub get_2_opcode : Vm → ℕ
get_2_opcode vm = vm.exe_file (vm.pc + 2)

-- `Rges.R0()` to `Rges.R7()` stand at the addresses 0 to 7; the bank bits of PSW are not read.
unfoldable pub get_rges : ℕ → Vm → ℕ
get_rges n vm = vm.chip_ram n

unfoldable pub set_rges : ℕ → ℕ → Vm → Vm
unfolding set_ram_data_at
set_rges n x vm = set_ram_data_at n x vm

abbrev pub sys_a : Vm → ℕ
sys_a vm = vm.chip_sfr a_addr

abbrev pub sys_b : Vm → ℕ
sys_b vm = vm.chip_sfr b_addr

abbrev pub sys_sp : Vm → ℕ
sys_sp vm = vm.chip_sfr sp_addr

abbrev pub sys_psw : Vm → ℕ
sys_psw vm = vm.chip_sfr psw_addr

-- `*((INT16U*) &m_ChipSfr[0x82])`, low byte first.
abbrev pub sys_dptr : Vm → ℕ
sys_dptr vm = vm.chip_sfr dptrl + 256 * vm.chip_sfr dptrh

-- The bit fields of `tagpsw`.
abbrev pub psw_p : Vm → ℕ
psw_p vm = bit_of (sys_psw vm) 0

abbrev pub psw_ov : Vm → ℕ
psw_ov vm = bit_of (sys_psw vm) 2

abbrev pub psw_ac : Vm → ℕ
psw_ac vm = bit_of (sys_psw vm) 6

abbrev pub psw_cy : Vm → ℕ
psw_cy vm = bit_of (sys_psw vm) 7

unfoldable pub set_psw_bit : ℕ → ℕ → Vm → Vm
unfolding set_sfr
set_psw_bit k b vm = set_sfr psw_addr (with_bit (sys_psw vm) k b) vm

unfoldable pub set_p : ℕ → Vm → Vm
unfolding set_psw_bit
set_p b vm = set_psw_bit 0 b vm

unfoldable pub set_ov : ℕ → Vm → Vm
unfolding set_psw_bit
set_ov b vm = set_psw_bit 2 b vm

unfoldable pub set_ac : ℕ → Vm → Vm
unfolding set_psw_bit
set_ac b vm = set_psw_bit 6 b vm

unfoldable pub set_cy : ℕ → Vm → Vm
unfolding set_psw_bit
set_cy b vm = set_psw_bit 7 b vm

-- `a ^= a >> 4; a ^= a >> 2; a ^= a >> 1;`
unfoldable pub fold_parity : ℕ → ℕ
fold_parity a =
    let a4 = bit_xor a (shr a 4) in
    let a2 = bit_xor a4 (shr a4 2) in let a1 = bit_xor a2 (shr a2 1) in low_bits a1 1

unfoldable pub updata_a_p_flag : Vm → Vm
unfolding fold_parity set_p
updata_a_p_flag vm = set_p (fold_parity (sys_a vm)) vm

-- `CUPReg_a::operator=` brings the parity flag up to date.
unfoldable pub set_a : ℕ → Vm → Vm
unfolding set_sfr updata_a_p_flag
set_a x vm = updata_a_p_flag (set_sfr a_addr x vm)

unfoldable pub set_b : ℕ → Vm → Vm
unfolding set_sfr
set_b x vm = set_sfr b_addr x vm

unfoldable pub set_sp : ℕ → Vm → Vm
unfolding set_sfr
set_sp x vm = set_sfr sp_addr x vm

unfoldable pub set_dptr : ℕ → Vm → Vm
unfolding set_sfr
set_dptr x vm = set_sfr dptrh (shr x 8) (set_sfr dptrl x vm)

-- `GetBitRamRef`: the address of the byte that holds the bit.
abbrev pub bit_byte : ℕ → ℕ
bit_byte addr = if leb addr 0x7F then addr / 8 + 0x20 else addr - (addr - 0x80) % 8

unfoldable pub get_bit_ram : ℕ → Vm → ℕ
get_bit_ram addr vm =
    if leb addr 0x7F then vm.chip_ram (bit_byte addr) else vm.chip_sfr (bit_byte addr)

unfoldable pub set_bit_ram : ℕ → ℕ → Vm → Vm
unfolding set_sfr set_ram_data_at
set_bit_ram addr x vm =
    if leb addr 0x7F then set_ram_data_at (bit_byte addr) x vm else set_sfr (bit_byte addr) x vm

-- `BIT0 << (addr % 8)`
abbrev pub bit_mask : ℕ → ℕ
bit_mask addr = 2 ^ (addr % 8)

unfoldable pub get_bit_flag : ℕ → Vm → Bool
unfolding get_bit_ram
get_bit_flag addr vm = not (bit_and (get_bit_ram addr vm) (bit_mask addr) == 0)

-- A write of a bit of the accumulator brings the parity flag up to date.
unfoldable pub updata_if_a : ℕ → Vm → Vm
updata_if_a addr vm = if leb 0xE0 addr && leb addr 0xE7 then updata_a_p_flag vm else vm

unfoldable pub set_bit_flag : ℕ → Vm → Vm
unfolding get_bit_ram set_bit_ram updata_if_a
set_bit_flag addr vm =
    updata_if_a addr (set_bit_ram addr (bit_or (get_bit_ram addr vm) (bit_mask addr)) vm)

unfoldable pub clr_bit_flag : ℕ → Vm → Vm
unfolding get_bit_ram set_bit_ram updata_if_a
clr_bit_flag addr vm =
    updata_if_a addr (set_bit_ram addr (bit_and (get_bit_ram addr vm) (255 - bit_mask addr)) vm)
