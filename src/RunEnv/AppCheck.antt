-- ===== src/RunEnv/AppCheck.antt =====
-- The check that a contract's accounts and its own account move by the same money
-- (src/vm/vmrunevn.cpp: `CheckAppAcctOperate`).
use dacrs.Base.{
  ℕ, ◌^◌, Bool, false, ◌&&◌, ◌||◌, Option, none, some, List, [], ◌∷◌, leb, ◌==◌, if◌then◌else◌,
}
use dacrs.Base.Int.{ℤ, pos}
use dacrs.Base.Checked.{CheckedAdd}
use dacrs.Base.Signed.{CheckedInt64}
use dacrs.AppAccount.Fund.{
  AppFundOperate, em_add_free_op, em_sub_free_op, em_add_tag_op, em_sub_tag_op, bytes_eq, eq_ℤ,
}
use dacrs.Vm.Api.{word_of}
use dacrs.Vm.Run.{to_int64}
use dacrs.RunEnv.Check.{VmOperate, Views, em_minus_free, get_account_id}

-- `m_MapAppOperate`: the operations on each account of the contract.
abbrev pub AppOperates : Type 0
AppOperates = List (List ℕ × List AppFundOperate)

abbrev pub adds : AppFundOperate → Bool
adds op = op.opeator_type == em_add_free_op || op.opeator_type == em_add_tag_op

abbrev pub subtracts : AppFundOperate → Bool
subtracts op = op.opeator_type == em_sub_free_op || op.opeator_type == em_sub_tag_op

module _ (ints : CheckedInt64) where
  abbrev with_add : ℤ → Option ℤ → Option (ℤ × ℤ)
  with_add minus none = none
  with_add minus (some add) = some (add, minus)

  abbrev with_minus : ℤ → Option ℤ → Option (ℤ × ℤ)
  with_minus add none = none
  with_minus add (some minus) = some (add, minus)

  -- One operation, added to the sums of what is added and of what is taken.
  unfoldable pub tally : AppFundOperate → ℤ × ℤ → Option (ℤ × ℤ)
  tally op (add, minus) =
      if adds op
      then with_add minus (ints.safe_add op.money add)
      else (if subtracts op
          then with_minus add (ints.safe_add op.money minus)
          else some (add, minus))

  -- The inner loop, over the operations of one account.
  unfoldable pub tally_ops : List AppFundOperate → ℤ × ℤ → Option (ℤ × ℤ)
  tally_ops [] sums = some sums
  tally_ops (op ∷ ops) sums = elim (tally op sums) [
    | none ↦ none
    | some sums' ↦ tally_ops ops sums'
  ]

  -- The outer loop, over the accounts.
  unfoldable pub tally_all : AppOperates → ℤ × ℤ → Option (ℤ × ℤ)
  unfolding tally_ops
  tally_all [] sums = some sums
  tally_all ((id, ops) ∷ rest) sums = elim (tally_ops ops sums) [
    | none ↦ none
    | some sums' ↦ tally_all rest sums'
  ]

module _ (views : Views) (checked : CheckedAdd) (des_user_id : List ℕ) where
  abbrev pub is_own_minus : VmOperate → Bool
  is_own_minus op =
      bytes_eq (get_account_id views op) des_user_id && op.opeator_type == em_minus_free

  -- What the outputs take from the account of the contract; `none` where an amount is negative as
  -- an int64_t or the sum does not fit.
  unfoldable pub sys_contract_acct : List VmOperate → ℕ → Option ℕ
  sys_contract_acct [] sum = some sum
  sys_contract_acct (op ∷ ops) sum =
      let value = word_of op.money in
      if is_own_minus op
      then (if leb (2 ^ 63) value then none else (elim (checked.safe_add value sum) [
        | none ↦ none
        | some sum' ↦ sys_contract_acct ops sum'
      ]))
      else sys_contract_acct ops sum

  abbrev same_sum : Option ℤ → Option ℤ → Bool
  same_sum none s = false
  same_sum (some r) none = false
  same_sum (some r) (some s) = eq_ℤ r s

  unfoldable pub check_app_acct_operate : CheckedInt64 → AppOperates → List VmOperate → ℕ → Bool
  unfolding tally_all sys_contract_acct
  check_app_acct_operate ints app_operates output tx_values =
      elim (tally_all ints app_operates (pos 0, pos 0)) [
        | none ↦ false
        | some (add, minus) ↦ elim (sys_contract_acct output 0) [
          | none ↦ false
          | some sys ↦
              same_sum (ints.safe_subtract add minus)
                (ints.safe_subtract (to_int64 tx_values) (to_int64 sys))
        ]
      ]
