-- ===== src/Vm/Safety.antt =====
-- What no instruction of src/vm/vm8051.cpp can break: cells stay bytes, PC stays in 16 bits, the
-- program is not written, and the external memory is written by MOVX alone.
use dacrs.Base.{ℕ, ◌<◌, ◌≡◌, refl, true, arith}
use dacrs.Base.Words.{IsByteMem, write-IsByteMem}
use dacrs.Vm.State.{Vm, set_sfr, set_ram_data_at, set_ex_ram, set_pc}
use dacrs.Vm.Step.{step_run}
use dacrs.Vm.Closure.Writes.{Writes, Closed, Writes-Closed, Writes-Closed_ex}
use dacrs.Vm.Closure.Steps.{IsExStore, step_run-Writes, step_run-Writes_internal}

-- The ranges that the C++ types of the fields give.
pub record IsValid (vm : Vm) : Type 0 where
  pub ram_bytes : IsByteMem vm.chip_ram
  pub sfr_bytes : IsByteMem vm.chip_sfr
  pub ex_bytes : IsByteMem vm.ex_ram
  pub exe_bytes : IsByteMem vm.exe_file
  pub pc_word : vm.pc < 65536

IsValid-Closed : Closed IsValid
unfolding set_sfr set_ram_data_at set_pc
IsValid-Closed = record {
  keep_sfr = λ i x vm v. record {
    ram_bytes = v.ram_bytes;
    sfr_bytes = write-IsByteMem vm.chip_sfr i _ v.sfr_bytes (omega arith);
    ex_bytes = v.ex_bytes;
    exe_bytes = v.exe_bytes;
    pc_word = v.pc_word;
  };
  keep_ram = λ i x vm v. record {
    ram_bytes = write-IsByteMem vm.chip_ram i _ v.ram_bytes (omega arith);
    sfr_bytes = v.sfr_bytes;
    ex_bytes = v.ex_bytes;
    exe_bytes = v.exe_bytes;
    pc_word = v.pc_word;
  };
  keep_pc = λ x vm v. record {
    ram_bytes = v.ram_bytes;
    sfr_bytes = v.sfr_bytes;
    ex_bytes = v.ex_bytes;
    exe_bytes = v.exe_bytes;
    pc_word = omega arith;
  };
}

set_ex_ram-IsValid : (i x : ℕ) (vm : Vm) → IsValid vm → IsValid (set_ex_ram i x vm)
unfolding set_ex_ram
set_ex_ram-IsValid i x vm v = record {
  ram_bytes = v.ram_bytes;
  sfr_bytes = v.sfr_bytes;
  ex_bytes = write-IsByteMem vm.ex_ram i _ v.ex_bytes (omega arith);
  exe_bytes = v.exe_bytes;
  pc_word = v.pc_word;
}

pub Writes-IsValid : {v w : Vm} → Writes true v w → IsValid v → IsValid w
Writes-IsValid r = Writes-Closed_ex IsValid IsValid-Closed set_ex_ram-IsValid r

-- Every instruction, whatever its opcode, leaves bytes in all cells and PC below 65536.
pub step_run-IsValid : (code : ℕ) (vm : Vm) → IsValid vm → IsValid (step_run code vm)
step_run-IsValid code vm = Writes-IsValid (step_run-Writes code vm)

-- No instruction changes the program.
pub step_run-exe_file : (code : ℕ) (vm : Vm) → (step_run code vm).exe_file ≡ vm.exe_file
unfolding set_sfr set_ram_data_at set_pc set_ex_ram
step_run-exe_file code vm =
    Writes-Closed_ex (λ w. w.exe_file ≡ vm.exe_file)
      (record { keep_sfr = λ i x w h. h; keep_ram = λ i x w h. h; keep_pc = λ x w h. h })
      (λ i x w h. h) (step_run-Writes code vm) refl

-- An instruction other than 0xF0, 0xF2 and 0xF3 leaves the external memory as it is.
pub step_run-ex_ram :
    (code : ℕ) (vm : Vm) → ¬ (IsExStore code) → (step_run code vm).ex_ram ≡ vm.ex_ram
unfolding set_sfr set_ram_data_at set_pc
step_run-ex_ram code vm n =
    Writes-Closed (λ w. w.ex_ram ≡ vm.ex_ram)
      (record { keep_sfr = λ i x w h. h; keep_ram = λ i x w h. h; keep_pc = λ x w h. h })
      (step_run-Writes_internal code vm n) refl
