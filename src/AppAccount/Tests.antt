-- ===== src/AppAccount/Tests.antt =====
-- The theorems on the accounts of contracts at concrete accounts and operations.
use dacrs.Base.{ℕ, ◌+◌, ◌≡◌, refl, arith, true, false, none, some, List, [], ◌∷◌, inl, inr, ◌++◌}
use dacrs.Base.Int.{pos}
use dacrs.Base.Plain.{plain}
use dacrs.AppAccount.Fund.{AppCFund, AppFundOperate, get_uint64_value, find_if, same_key, bytes_eq}
use dacrs.AppAccount.Keys.{Unique}
use dacrs.AppAccount.Account.{
  AppUserAccout, add_app_cfund, minus_app_cfund, operate, operate_loop, operate_all, height_or_time,
  auto_merge_freeze_to_free, get_app_cfund, sum_values,
}
use dacrs.AppAccount.Branches.{Holds}
use dacrs.AppAccount.Money.{Settled, operate-Settled, total_money}
use dacrs.AppAccount.Validity.{IsValid, Keeps, operate-IsValid}
use dacrs.AppAccount.Refinement.{Posts, operate-Posted}
use dacrs.AppAccount.Thaw.{
  Thawed, auto_merge_freeze_to_free-Thawed, auto_merge_freeze_to_free-IsValid,
}
use dacrs.AppAccount.Batch.{
  total_money-operate_all, operate_all-IsValid, operate_loop-stopped, sum_of, paid_in, paid_out,
}
use dacrs.AppAccount.Undo.{minus-add}
use dacrs.AppAccount.Totality.{Returns, no_height, operate-Aborts, operate-Returns}

-- 100 free, 30 frozen up to height 51 and 20 up to 90.
abbrev account : AppUserAccout
account = record {
  values = 100;
  acc_user_id = 1 ∷ 2 ∷ [];
  freezed_fund =
      record { value = 30; height = pos 51; tag = 7 ∷ [] }
      ∷ record { value = 20; height = pos 90; tag = 8 ∷ [] }
      ∷ [];
}

abbrev tag_op : ℕ → ℕ → AppFundOperate
tag_op kind amount = record {
  opeator_type = kind;
  out_height = 51;
  money = pos amount;
  fund_taglen = 1;
  fund_tag = 7 ∷ 0 ∷ 0 ∷ [];
}

account-IsValid : IsValid account
unfolding find_if same_key bytes_eq Unique
account-IsValid = record { free = omega arith; frozen = omega arith; unique = (refl, (refl, tt)) }

abbrev fund : AppCFund
fund = record { value = 5; height = pos 51; tag = 7 ∷ [] }

operate-Settled_example :
    Holds (Settled (tag_op 4 12) account) (operate plain (tag_op 4 12) account)
operate-Settled_example = operate-Settled plain (tag_op 4 12) account

operate-IsValid_example : Holds Keeps (operate plain (tag_op 3 12) account)
unfolding get_uint64_value
operate-IsValid_example = operate-IsValid plain (tag_op 3 12) account (omega arith) account-IsValid

operate-Posted_example : Holds (Posts (tag_op 4 30) account) (operate plain (tag_op 4 30) account)
operate-Posted_example = operate-Posted plain (tag_op 4 30) account account-IsValid

operate-Returns_example : Returns (operate plain (tag_op 3 12) account)
unfolding get_uint64_value
operate-Returns_example = operate-Returns plain (tag_op 3 12) account (record {
  tag = omega arith;
  positive = omega arith;
  small = omega arith;
  amount = omega arith;
})

minus-add_example :
    (acc' : AppUserAccout) × (add_app_cfund plain fund account ≡ some (true, acc'))
    × (minus_app_cfund fund acc' ≡ some (true, account))
unfolding get_app_cfund find_if same_key bytes_eq
minus-add_example =
    minus-add plain fund account refl (omega arith) (omega arith) (inr (omega arith))

auto_merge_freeze_to_free-Thawed_example :
    Holds (Thawed (pos 60) account) (auto_merge_freeze_to_free plain [] 0 (pos 60) account)
unfolding height_or_time
auto_merge_freeze_to_free-Thawed_example =
    auto_merge_freeze_to_free-Thawed plain [] 0 (pos 60) (pos 60) account (omega arith) refl

auto_merge_freeze_to_free-IsValid_instance :
    Holds Keeps (auto_merge_freeze_to_free plain [] 0 (pos 60) account)
auto_merge_freeze_to_free-IsValid_instance =
    auto_merge_freeze_to_free-IsValid plain [] 0 (pos 60) account account-IsValid

abbrev batch : List AppFundOperate
batch = tag_op 1 5 ∷ tag_op 3 7 ∷ tag_op 2 300 ∷ []

-- 5 more in the free money, 7 more in a frozen fund, and 4 out of the free money.
abbrev accepted_batch : List AppFundOperate
accepted_batch = tag_op 1 5 ∷ tag_op 3 7 ∷ tag_op 2 4 ∷ []

abbrev after_accepted : AppUserAccout
after_accepted = record {
  values = 101;
  acc_user_id = 1 ∷ 2 ∷ [];
  freezed_fund =
      record { value = 37; height = pos 51; tag = 7 ∷ [] }
      ∷ record { value = 20; height = pos 90; tag = 8 ∷ [] }
      ∷ [];
}

batch_runs : operate_all plain accepted_batch account ≡ some (true, after_accepted)
unfolding operate_all operate_loop operate find_if
batch_runs = refl

total_money-operate_all_example :
    total_money after_accepted + sum_of paid_out accepted_batch
    ≡ total_money account + sum_of paid_in accepted_batch
unfolding total_money sum_of get_uint64_value sum_values
total_money-operate_all_example =
    total_money-operate_all plain accepted_batch account after_accepted (omega arith) batch_runs

operate_all-IsValid_instance : Holds Keeps (operate_all plain batch account)
unfolding get_uint64_value
operate_all-IsValid_instance = operate_all-IsValid plain batch account (omega arith) account-IsValid

-- 105 free and 37 frozen, when the third operation of the batch is refused.
abbrev after_two : AppUserAccout
after_two = record {
  values = 105;
  acc_user_id = 1 ∷ 2 ∷ [];
  freezed_fund =
      record { value = 37; height = pos 51; tag = 7 ∷ [] }
      ∷ record { value = 20; height = pos 90; tag = 8 ∷ [] }
      ∷ [];
}

batch_stops : operate_loop plain batch account ≡ some (false, after_two)
unfolding operate_loop operate find_if
batch_stops = refl

operate_loop-stopped_example :
    (before rest : List AppFundOperate) × (op : AppFundOperate) × (batch ≡ before ++ op ∷ rest)
    × (operate_loop plain before account ≡ some (true, after_two))
    × (operate plain op after_two ≡ some (false, after_two))
operate_loop-stopped_example = operate_loop-stopped plain batch account after_two batch_stops

abbrev heightless : AppFundOperate
heightless = record {
  opeator_type = 3;
  out_height = 0;
  money = pos 4;
  fund_taglen = 1;
  fund_tag = 7 ∷ [];
}

operate-Aborts_instance : operate plain heightless account ≡ none
operate-Aborts_instance = operate-Aborts plain heightless account (no_height (inl refl) refl)
