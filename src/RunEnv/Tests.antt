-- ===== src/RunEnv/Tests.antt =====
-- The theorems on the run environment at concrete transactions.
use dacrs.Base.{
  ◌&&◌, ℕ, ◌-◌, ◌*◌, ◌^◌, ◌≤◌, ◌≡◌, refl, arith, true, Option, none, some, List, [], ◌∷◌, ◌==◌,
  if◌then◌else◌,
}
use dacrs.Base.Int.{ℤ, pos, negsuc, ◌+ℤ◌, ◌-ℤ◌, leb_ℤ}
use dacrs.Base.Plain.{plain}
use dacrs.Base.Signed.{CheckedInt64, IsInt64}
use dacrs.Base.Words.{Mem}
use dacrs.AppAccount.Fund.{AppFundOperate, bytes_eq}
use dacrs.Vm.State.{Vm, get_opcode, get_1_opcode, get_2_opcode, get_ex_ram, advance, set_pc}
use dacrs.Vm.Step.{step_run, step_rows}
use dacrs.Vm.Step.Low.{step_run_00}
use dacrs.Vm.Ops.Move.{opcode_00_nop}
use dacrs.Vm.Ops.Flow.{opcode_02_ljmp_addr16}
use dacrs.Vm.Api.{word_of, RetDefine}
use dacrs.Vm.Run.{returned, run, run_loop, run_round, limit_check, max_block_run_step}
use dacrs.RunEnv.Check.{
  VmOperate, Views, get_account_id, reg_eq, reg_is_empty, count_money, id_passes, check_one,
  check_loop, check_operate,
}
use dacrs.RunEnv.Accepted.{Accepted, check_operate-Accepted}
use dacrs.RunEnv.AppCheck.{
  AppOperates, tally, tally_ops, tally_all, sys_contract_acct, check_app_acct_operate,
}
use dacrs.RunEnv.AppBalance.{AppBalanced, check_app_acct_operate-AppBalanced}
use dacrs.RunEnv.Fees.{max_step, run-max_step}

-- The contract is registered at height 1, and every id has a key.
abbrev views : Views
views = record {
  get_reg_id = λ _. none;
  have_script = λ vec. reg_eq vec (1 ∷ 0 ∷ 0 ∷ 0 ∷ 0 ∷ 0 ∷ []);
  have_key = λ _. true;
}

abbrev output : ℕ → ℕ → VmOperate
output kind height = record {
  nacc_type = 1;
  account_id = height ∷ 0 ∷ 0 ∷ 0 ∷ 0 ∷ 0 ∷ 0 ∷ [];
  opeator_type = kind;
  out_height = 0;
  money = 25 ∷ 0 ∷ 0 ∷ 0 ∷ 0 ∷ 0 ∷ 0 ∷ 0 ∷ [];
}

-- The contract pays 25 to the account at height 2.
abbrev outputs : List VmOperate
outputs = output 2 1 ∷ output 1 2 ∷ []

outputs_pass : check_operate views plain (1 ∷ 0 ∷ 0 ∷ 0 ∷ 0 ∷ 0 ∷ []) outputs ≡ true
unfolding check_operate check_loop check_one count_money id_passes get_account_id reg_eq
    reg_is_empty word_of
outputs_pass = refl

check_operate-Accepted_example : Accepted views plain (1 ∷ 0 ∷ 0 ∷ 0 ∷ 0 ∷ 0 ∷ []) outputs
check_operate-Accepted_example =
    check_operate-Accepted views plain (1 ∷ 0 ∷ 0 ∷ 0 ∷ 0 ∷ 0 ∷ []) outputs outputs_pass

abbrev no_call : ℕ → Mem → ℕ → Option (RetDefine × ℕ)
no_call m mem env = none

-- Two NOPs and a jump to 0x0008, with 1 at the address of the result.
abbrev program : Mem
program i = if i == 2 then 0x02 else (if i == 4 then 0x08 else 0)

abbrev leaving : Vm
leaving = record {
  chip_ram = λ _. 0;
  chip_sfr = λ _. 0;
  ex_ram = λ i. if i == 0xEFFD then 1 else 0;
  exe_file = program;
  pc = 0;
}

leaving-run : run no_call 10 500 leaving (some 0) ≡ some (returned (pos 3))
unfolding run run_loop run_round step_run step_rows step_run_00 get_opcode get_ex_ram opcode_00_nop
    advance opcode_02_ljmp_addr16 get_1_opcode get_2_opcode set_pc limit_check ◌+ℤ◌
leaving-run = refl

run-max_step_instance : (3 * 7 ≤ (10035 - 10000) * 100) × (3 ≤ max_block_run_step)
unfolding max_step
run-max_step_instance =
    run-max_step no_call 10 10000 10035 7 500 3 leaving (some 0) refl leaving-run

-- Signed numbers that do what the library documents.
abbrev in_range : ℤ → Option ℤ
in_range x = if leb_ℤ (negsuc (2 ^ 63 - 1)) x && leb_ℤ x (pos (2 ^ 63 - 1)) then some x else none

in_range_exact : (x r : ℤ) → in_range x ≡ some r → r ≡ x
in_range_exact x r h = ground arith

in_range_fits : (x : ℤ) → IsInt64 x → in_range x ≡ some x
in_range_fits x h = ground arith

abbrev signed : CheckedInt64
signed = record {
  safe_add = λ a b. in_range (a +ℤ b);
  safe_subtract = λ a b. in_range (a -ℤ b);
  add_exact = λ a b r h. in_range_exact (a +ℤ b) r h;
  add_fits = λ a b h. in_range_fits (a +ℤ b) h;
  subtract_exact = λ a b r h. in_range_exact (a -ℤ b) r h;
  subtract_fits = λ a b h. in_range_fits (a -ℤ b) h;
}

abbrev app_op : ℕ → ℕ → AppFundOperate
app_op kind amount = record {
  opeator_type = kind;
  out_height = 0;
  money = pos amount;
  fund_taglen = 0;
  fund_tag = [];
}

-- A transaction of 65 and 25 taken from the contract: its accounts gain 40.
abbrev app_operates : AppOperates
app_operates = (7 ∷ [], app_op 1 50 ∷ app_op 2 10 ∷ []) ∷ []

app_operates_pass :
    check_app_acct_operate views plain (1 ∷ 0 ∷ 0 ∷ 0 ∷ 0 ∷ 0 ∷ []) signed app_operates outputs 65
    ≡ true
unfolding check_app_acct_operate tally_all tally_ops tally sys_contract_acct get_account_id bytes_eq
    word_of ◌+ℤ◌ ◌-ℤ◌
app_operates_pass = refl

check_app_acct_operate-AppBalanced_example :
    AppBalanced views plain (1 ∷ 0 ∷ 0 ∷ 0 ∷ 0 ∷ 0 ∷ []) app_operates outputs 65
check_app_acct_operate-AppBalanced_example =
    check_app_acct_operate-AppBalanced views plain (1 ∷ 0 ∷ 0 ∷ 0 ∷ 0 ∷ 0 ∷ []) signed app_operates
      outputs 65 (omega arith) app_operates_pass

-- The outputs take 2 ^ 64 - 2 from the contract, its accounts gain 2, and the check accepts.
abbrev most : VmOperate
most = record (output 2 1) { money = 255 ∷ 255 ∷ 255 ∷ 255 ∷ 255 ∷ 255 ∷ 255 ∷ 127 ∷ [] }

wrapped_pass :
    check_app_acct_operate views plain
      (1 ∷ 0 ∷ 0 ∷ 0 ∷ 0 ∷ 0 ∷ [])
      signed
      ((7 ∷ [], app_op 1 2 ∷ []) ∷ [])
      (most ∷ most ∷ [])
      0
    ≡ true
unfolding check_app_acct_operate tally_all tally_ops tally sys_contract_acct get_account_id bytes_eq
    word_of ◌+ℤ◌ ◌-ℤ◌
wrapped_pass = refl
