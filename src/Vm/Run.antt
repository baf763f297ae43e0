-- ===== src/Vm/Run.antt =====
-- `CVm8051::run(maxstep, pVmEvn)` (src/vm/vm8051.cpp): the loop that executes a contract, hands
-- calls to the host at PC 0x0012, leaves at PC 0x0008, and stops at the step limit.
pub mod Limits
pub mod Bounds
pub mod Spin
use dacrs.Base.{
  ℕ, zero, suc, ◌+◌, ◌-◌, ◌*◌, ◌/◌, ◌%◌, ◌^◌, bit_or, Bool, true, false, ◌&&◌, ◌||◌, Option, none,
  some, List, [], ◌∷◌, length, ltb, leb, ◌==◌, if◌then◌else◌,
}
use dacrs.Base.Int.{ℤ, pos, negsuc, ◌+ℤ◌, ◌-ℤ◌, leb_ℤ}
use dacrs.Base.Words.{Mem, write, int8u, low_bits, shr}
use dacrs.Vm.State.{Vm, get_opcode, get_ex_ram}
use dacrs.Vm.Step.{step_run}
use dacrs.Vm.Api.{Status, failed, done, aborted, RetDefine}

abbrev pub vm_share_addr : ℕ
vm_share_addr = 0xEFFF

abbrev pub vm_fun_call_addr : ℕ
vm_fun_call_addr = 0xEFFD

abbrev pub max_share_ram : ℕ
max_share_ram = 4096

abbrev pub max_block_run_step : ℕ
max_block_run_step = 12000000

-- `thrown` is the exception of `it.at(0)` on an empty vector, `faulted` a call whose behaviour is
-- undefined: a number past the table of functions, or a division that traps.
pub data Verdict : Type 0 where
  returned : ℤ → Verdict
  thrown faulted : Verdict

-- `memset(ipara, 0, MAX_SHARE_RAM)`
unfoldable pub clear_share : Mem → Mem
clear_share m i = if leb vm_share_addr i && ltb i (vm_share_addr + max_share_ram) then 0 else m i

-- `memcpy(&m[at], bytes, size)`
unfoldable pub copy_bytes : ℕ → List ℕ → Mem → Mem
copy_bytes at [] m = m
copy_bytes at (b ∷ bs) m = copy_bytes (at + 1) bs (write m at (int8u b))

-- The sum of `it.size() + 2`.
unfoldable pub total_size : List (List ℕ) → ℕ
total_size [] = 0
total_size (it ∷ its) = length it + 2 + total_size its

-- Each result is its size in two bytes, low byte first, and its bytes.
unfoldable pub copy_results : ℕ → List (List ℕ) → Mem → Option Mem
unfolding copy_bytes
copy_results at [] m = some m
copy_results at ([] ∷ its) m = none
copy_results at ((b ∷ bs) ∷ its) m =
    let size = length (b ∷ bs) in
    copy_results (at + (size + 2)) its
      (copy_bytes (at + 2) (b ∷ bs) (copy_bytes at (low_bits size 8 ∷ shr size 8 ∷ []) m))

-- Results that do not fit are dropped.
unfoldable pub give_back : List (List ℕ) → Mem → Option Mem
unfolding total_size copy_results
give_back results m =
    if ltb (total_size results + 2) max_share_ram
    then copy_results vm_share_addr results m
    else some m

-- (int64_t) x
abbrev pub to_int64 : ℕ → ℤ
to_int64 x = if ltb x (2 ^ 63) then pos x else negsuc (2 ^ 64 - 1 - x)

unfoldable pub over_limit : ℕ → ℤ → Bool
over_limit maxstep step = leb_ℤ (pos max_block_run_step) step || leb_ℤ (to_int64 maxstep) step

-- The number that the contract left for the host.
unfoldable pub method_id : Vm → ℕ
method_id vm = bit_or (get_ex_ram vm_fun_call_addr vm) (get_ex_ram (vm_fun_call_addr + 1) vm * 256)

-- What one round of the loop comes to.
pub data Round (E : Type 0) : Type 0 where
  next : Vm → ℤ → E → Round E
  stop : Verdict → Round E

-- `call` is `CallExternalFunc` on the run environment: it reads the memory from the share address
-- on, may change the environment, and reports a status, a number of steps and results; `none` is a
-- fault.
module _ {E : Type 0} (call : ℕ → Mem → E → Option (RetDefine × E)) where
  unfoldable pub limit_check : ℕ → Vm → ℤ → E → Round E
  unfolding over_limit
  limit_check maxstep vm step env =
      if over_limit maxstep step then stop (returned (negsuc 0)) else next vm step env

  unfoldable pub after_results : ℕ → Vm → ℤ → E → Option Mem → Round E
  unfolding limit_check
  after_results maxstep vm step env none = stop thrown
  after_results maxstep vm step env (some m) =
      limit_check maxstep (record vm { ex_ram = m }) step env

  unfoldable pub after_status : Status → ℕ → Vm → ℤ → List (List ℕ) → E → Round E
  unfolding after_results give_back
  after_status done maxstep vm step results env =
      after_results maxstep vm step env (give_back results vm.ex_ram)
  after_status aborted maxstep vm step results env = stop (returned (negsuc 0))
  after_status failed maxstep vm step results env = limit_check maxstep vm step env

  unfoldable pub after_call : ℕ → Vm → ℤ → Option (RetDefine × E) → Round E
  unfolding after_status clear_share
  after_call maxstep vm step none = stop faulted
  after_call maxstep vm step (some (ret, env)) =
      after_status ret.status maxstep (record vm { ex_ram = clear_share vm.ex_ram })
        (step +ℤ (ret.step -ℤ pos 1)) ret.results env

  -- One round of `while (1)`.
  unfoldable pub run_round : ℕ → Vm → ℤ → E → Round E
  unfolding after_call method_id
  run_round maxstep vm step env =
      let vm1 = step_run (get_opcode vm) vm in
      let step1 = step +ℤ pos 1 in
      if vm1.pc == 0x0012
      then after_call maxstep vm1 step1 (call (method_id vm1) vm1.ex_ram env)
      else (if vm1.pc == 0x0008
          then stop (returned (if get_ex_ram 0xEFFD vm1 == 0x01 then step1 else pos 0))
          else limit_check maxstep vm1 step1 env)

  -- `none` means that the fuel ran out.
  unfoldable pub run_loop : ℕ → ℕ → Vm → ℤ → E → Option Verdict
  run_loop zero maxstep vm step env = none
  run_loop (suc fuel) maxstep vm step env = elim (run_round maxstep vm step env) [
    | stop v ↦ some v
    | next vm' step' env' ↦ run_loop fuel maxstep vm' step' env'
  ]

  -- The environment is a pointer, which may be NULL.
  unfoldable pub run : ℕ → ℕ → Vm → Option E → Option Verdict
  run fuel maxstep vm none = some (returned (negsuc 0))
  run fuel maxstep vm (some env) =
      if maxstep == 0 then some (returned (negsuc 0)) else run_loop fuel maxstep vm (pos 0) env
