-- ===== src/AppAccount/Money.antt =====
-- What an operation does to the money of an account, free and frozen together
-- (src/vm/appaccount.cpp: `Operate`).
use dacrs.Base.{
  ℕ, ◌+◌, ◌^◌, ◌≤◌, Bool, true, false, some, List, [], ◌∷◌, ◌++◌, ◌≡◌, ap, arith, ltb, leb,
  Bool-cases, inl, inr, ◌⊎◌,
}
use mathlib.Core.Option.{some-injective}
use dacrs.Base.Checked.{CheckedAdd}
use dacrs.AppAccount.Fund.{
  AppCFund, AppFundOperate, find_if, replace_first, same_key, fund_of, get_uint64_value,
  get_fund_tag_v, em_add_free_op, em_sub_free_op, em_add_tag_op, em_sub_tag_op,
}
use dacrs.AppAccount.Account.{
  AppUserAccout, Outcome, get_app_cfund, put_funds, add_free, sub_free, operate, sum_values,
}
use dacrs.AppAccount.Branches.{
  Holds, Added, fresh, joined, dropped, refused_zero, Deducted, missing, too_little, used_up, left,
  refused_height, found-own_key, Dispatched, to_free, from_free, to_fund, from_fund, bad_fund,
  unknown_type, operate-Dispatched, add_app_cfund-Added, minus_app_cfund-Deducted,
}

pub sum_values-append :
    (fs gs : List AppCFund) → sum_values (fs ++ gs) ≡ sum_values fs + sum_values gs
unfolding sum_values
sum_values-append [] gs = omega arith
sum_values-append (f ∷ fs) gs = omega (arith, sum_values-append fs gs)

pub sum_values-replaced :
    (p : AppCFund → Bool) (news fs : List AppCFund) (it : AppCFund)
    → find_if p fs ≡ some it
    → sum_values (replace_first p news fs) + it.value ≡ sum_values fs + sum_values news
unfolding find_if replace_first sum_values
sum_values-replaced p news [] it h = ground arith
sum_values-replaced p news (f ∷ fs) it h = elim (Bool-cases (p f)) [
  | inl e ↦ rw e (
      let same = ap AppCFund.value (some-injective f it (rw e at h)) in
      omega (arith, sum_values-append news fs))
  | inr e ↦ rw e (let rest = sum_values-replaced p news fs it (rw e at h) in omega arith)
]

unfoldable pub total_money : AppUserAccout → ℕ
total_money acc = acc.values + sum_values acc.freezed_fund

put_funds-total :
    (fund it : AppCFund) (news : List AppCFund) (acc : AppUserAccout)
    → get_app_cfund fund.tag fund.height acc ≡ some it
    → total_money (put_funds fund news acc) + it.value ≡ total_money acc + sum_values news
unfolding total_money put_funds get_app_cfund
put_funds-total fund it news acc h =
    let replaced = sum_values-replaced (same_key fund.tag fund.height) news acc.freezed_fund it h in
    omega arith

-- What an operation leaves, with its result.
pub data Settled (op : AppFundOperate) (acc : AppUserAccout) : Bool → AppUserAccout → Type 0 where
  unchanged : Settled op acc false acc
  deposited :
      (acc' : AppUserAccout)
      → (op.opeator_type ≡ em_add_free_op) ⊎ (op.opeator_type ≡ em_add_tag_op)
      → total_money acc' ≡ total_money acc + get_uint64_value op
      → Settled op acc true acc'
  withdrawn :
      (acc' : AppUserAccout)
      → (op.opeator_type ≡ em_sub_free_op) ⊎ (op.opeator_type ≡ em_sub_tag_op)
      → total_money acc' + get_uint64_value op ≡ total_money acc
      → Settled op acc true acc'
  overflowed :
      (it : AppCFund)
      → op.opeator_type ≡ em_add_tag_op
      → get_app_cfund it.tag it.height acc ≡ some it
      → 2 ^ 64 ≤ get_uint64_value op + it.value
      → Settled op acc true acc

module _ (op : AppFundOperate) (fund : AppCFund) (acc : AppUserAccout)
    (amount : fund.value ≡ get_uint64_value op) where
  Added-Settled :
      (o : Outcome) → op.opeator_type ≡ em_add_tag_op → Added fund acc o → Holds (Settled op acc) o
  unfolding total_money sum_values
  Added-Settled _ kind (fresh e) =
      deposited _ (inr kind) (omega (arith, sum_values-append acc.freezed_fund (fund ∷ [])))
  Added-Settled _ kind (joined it e fits) =
      deposited _ (inr kind) (omega (arith, put_funds-total fund it _ acc e))
  Added-Settled _ kind (dropped it e over) =
      overflowed it kind (found-own_key fund it acc e) (omega arith)
  Added-Settled _ kind (refused_zero it e z) = tt

  Deducted-Settled :
      (o : Outcome)
      → op.opeator_type ≡ em_sub_tag_op
      → Deducted fund acc o
      → Holds (Settled op acc) o
  unfolding sum_values
  Deducted-Settled _ kind (missing e) = unchanged
  Deducted-Settled _ kind (too_little it e less) = unchanged
  Deducted-Settled _ kind (used_up it e same) =
      withdrawn _ (inr kind) (omega (arith, put_funds-total fund it [] acc e))
  Deducted-Settled _ kind (left it e less) =
      withdrawn _ (inr kind) (omega (arith, put_funds-total fund it _ acc e))
  Deducted-Settled _ kind (refused_height e) = tt

pub fund_of-value :
    (op : AppFundOperate) (fund : AppCFund)
    → fund_of op ≡ some fund
    → fund.value ≡ get_uint64_value op
unfolding fund_of get_fund_tag_v
fund_of-value op fund h = ground arith

module _ (checked : CheckedAdd) where
  add_free-Settled :
      (op : AppFundOperate) (acc : AppUserAccout)
      → op.opeator_type ≡ em_add_free_op
      → Holds (Settled op acc) (some (add_free checked (get_uint64_value op) acc))
  unfolding add_free total_money
  add_free-Settled op acc kind =
      elim (Bool-cases (ltb (acc.values + get_uint64_value op) (2 ^ 64))) [
        | inl b ↦
            rw (add_free, checked.fits acc.values (get_uint64_value op) (ground arith))
              (deposited _ (inl kind) (omega arith))
        | inr b ↦
            rw (add_free, checked.overflows acc.values (get_uint64_value op) (ground arith))
              unchanged
      ]

  sub_free-Settled :
      (op : AppFundOperate) (acc : AppUserAccout)
      → op.opeator_type ≡ em_sub_free_op
      → Holds (Settled op acc) (some (sub_free checked (get_uint64_value op) acc))
  unfolding sub_free total_money
  sub_free-Settled op acc kind = elim (Bool-cases (leb (get_uint64_value op) acc.values)) [
    | inl b ↦ rw (sub_free, b) (withdrawn _ (inl kind) (ground arith))
    | inr b ↦ rw (sub_free, b) unchanged
  ]

  -- An operation that is refused leaves the account as it was. One that succeeds adds its amount to
  -- the free and frozen money of the account together or takes it away, with one exception: where
  -- the fund to add to and the amount exceed an uint64_t, the money stays as it was.
  pub operate-Settled :
      (op : AppFundOperate) (acc : AppUserAccout) → Holds (Settled op acc) (operate checked op acc)
  operate-Settled op acc = dispatched-Settled op acc _ (operate-Dispatched checked op acc)
    where
      dispatched-Settled :
          (op' : AppFundOperate) (acc' : AppUserAccout) (o : Outcome)
          → Dispatched checked op' acc' o
          → Holds (Settled op' acc') o
      dispatched-Settled op' acc' _ (to_free kind) = add_free-Settled op' acc' kind
      dispatched-Settled op' acc' _ (from_free kind) = sub_free-Settled op' acc' kind
      dispatched-Settled op' acc' _ (to_fund kind fund e) =
          Added-Settled op' fund acc' (fund_of-value op' fund e) _ kind
            (add_app_cfund-Added checked fund acc')
      dispatched-Settled op' acc' _ (from_fund kind fund e) =
          Deducted-Settled op' fund acc' (fund_of-value op' fund e) _ kind
            (minus_app_cfund-Deducted fund acc')
      dispatched-Settled op' acc' _ (bad_fund e) = tt
      dispatched-Settled op' acc' _ (unknown_type kind) = unchanged
