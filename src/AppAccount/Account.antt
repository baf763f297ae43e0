-- ===== src/AppAccount/Account.antt =====
-- The account of a user of a contract: free money and frozen funds (src/vm/appaccount.cpp:
-- CAppUserAccout).
use dacrs.Base.{
  ℕ, ◌+◌, ◌-◌, ◌%◌, ◌^◌, Bool, true, false, ◌&&◌, Option, none, some, List, [], ◌∷◌, ◌++◌, leb,
  ◌==◌, if◌then◌else◌, length, get_elem?,
}
use dacrs.Base.Int.{ℤ, pos, pos_part, ltb_ℤ, leb_ℤ}
use dacrs.Base.Checked.{CheckedAdd}
use dacrs.AppAccount.Fund.{
  AppCFund, AppFundOperate, em_add_free_op, em_sub_free_op, em_add_tag_op, em_sub_tag_op, to_int,
  get_uint64_value, fund_of, same_key, find_if, replace_first, merge_cfund,
}

pub record AppUserAccout : Type 0 where
  pub values : ℕ
  pub acc_user_id : List ℕ
  pub freezed_fund : List AppCFund

-- What a method returns, with the account afterwards; `none` stands for a failed assertion.
abbrev pub Outcome : Type 0
Outcome = Option (Bool × AppUserAccout)

unfoldable pub get_app_cfund : List ℕ → ℤ → AppUserAccout → Option AppCFund
get_app_cfund tag height acc = find_if (same_key tag height) acc.freezed_fund

unfoldable pub sum_values : List AppCFund → ℕ
sum_values [] = 0
sum_values (f ∷ fs) = f.value + sum_values fs

-- The sum of an uint64_t variable, which wraps.
unfoldable pub get_all_freezed_values : AppUserAccout → ℕ
unfolding sum_values
get_all_freezed_values acc = sum_values acc.freezed_fund % 2 ^ 64

-- The funds are changed at the first one with the key of `fund`.
unfoldable pub put_funds : AppCFund → List AppCFund → AppUserAccout → AppUserAccout
unfolding replace_first
put_funds fund news acc = record acc {
  freezed_fund = replace_first (same_key fund.tag fund.height) news acc.freezed_fund;
}

-- `*it = cInFound`
unfoldable pub change_app_cfund : AppCFund → AppUserAccout → Outcome
unfolding get_app_cfund put_funds
change_app_cfund fund acc =
    if ltb_ℤ (pos 0) fund.height
    then elim (get_app_cfund fund.tag fund.height acc) [
      | none ↦ some (false, acc)
      | some it ↦ some (true, put_funds fund (fund ∷ []) acc)
    ]
    else none

unfoldable pub minus_app_cfund : AppCFund → AppUserAccout → Outcome
unfolding get_app_cfund put_funds
minus_app_cfund fund acc =
    if ltb_ℤ (pos 0) fund.height
    then elim (get_app_cfund fund.tag fund.height acc) [
      | none ↦ some (false, acc)
      | some it ↦
          if leb fund.value it.value
          then (if it.value == fund.value
              then some (true, put_funds fund [] acc)
              else some
                  (true, put_funds fund (record it { value = it.value - fund.value } ∷ []) acc))
          else some (false, acc)
    ]
    else none

-- `remove_if`. Where nothing is due it removes nothing, so `bIsNeedRemvoe` is not kept.
unfoldable pub keep_frozen : ℤ → List AppCFund → List AppCFund
keep_frozen limit [] = []
keep_frozen limit (f ∷ fs) =
    if leb_ℤ f.height limit then keep_frozen limit fs else f ∷ keep_frozen limit fs

-- `MinusAppCFund(vuchTag, ullVal, nHight)`
unfoldable pub minus_app_cfund_tag : List ℕ → ℕ → ℤ → AppUserAccout → Outcome
unfolding minus_app_cfund
minus_app_cfund_tag tag value height acc =
    minus_app_cfund (record { value = value; height = height; tag = tag }) acc

module _ (checked : CheckedAdd) where
  -- The result of `MergeCFund` is not looked at.
  unfoldable pub add_app_cfund : AppCFund → AppUserAccout → Outcome
  unfolding get_app_cfund put_funds merge_cfund
  add_app_cfund fund acc = elim (get_app_cfund fund.tag fund.height acc) [
    | none ↦ some (true, record acc { freezed_fund = acc.freezed_fund ++ fund ∷ [] })
    | some it ↦ elim (merge_cfund checked it fund) [
      | none ↦ none
      | some (ok, it') ↦ some (true, put_funds fund (it' ∷ []) acc)
    ]
  ]

  -- `AddAppCFund(vuchTag, ullVal, nHight)`
  unfoldable pub add_app_cfund_tag : List ℕ → ℕ → ℤ → AppUserAccout → Outcome
  unfolding add_app_cfund
  add_app_cfund_tag tag value height acc =
      add_app_cfund (record { value = value; height = height; tag = tag }) acc

  unfoldable pub add_free : ℕ → AppUserAccout → Bool × AppUserAccout
  add_free money acc = elim (checked.safe_add acc.values money) [
    | none ↦ (false, acc)
    | some sum ↦ (true, record acc { values = sum })
  ]

  unfoldable pub sub_free : ℕ → AppUserAccout → Bool × AppUserAccout
  sub_free money acc =
      if leb money acc.values
      then (true, record acc { values = acc.values - money })
      else (false, acc)

  abbrev on_fund : (AppCFund → Outcome) → Option AppCFund → Outcome
  on_fund act none = none
  on_fund act (some fund) = act fund

  -- `Operate(const CAppFundOperate &)`
  unfoldable pub operate : AppFundOperate → AppUserAccout → Outcome
  unfolding add_free sub_free add_app_cfund minus_app_cfund fund_of get_uint64_value
  operate op acc =
      if op.opeator_type == em_add_free_op
      then some (add_free (get_uint64_value op) acc)
      else (if op.opeator_type == em_sub_free_op
          then some (sub_free (get_uint64_value op) acc)
          else (if op.opeator_type == em_add_tag_op
              then on_fund (λ fund. add_app_cfund fund acc) (fund_of op)
              else (if op.opeator_type == em_sub_tag_op
                  then on_fund (λ fund. minus_app_cfund fund acc) (fund_of op)
                  else some (false, acc))))

  -- The loop of `Operate(const vector<CAppFundOperate> &)`.
  unfoldable pub operate_loop : List AppFundOperate → AppUserAccout → Outcome
  operate_loop [] acc = some (true, acc)
  operate_loop (op ∷ ops) acc = elim (operate op acc) [
    | none ↦ none
    | some (false, acc') ↦ some (false, acc')
    | some (true, acc') ↦ operate_loop ops acc'
  ]

  unfoldable pub operate_all : List AppFundOperate → AppUserAccout → Outcome
  unfolding operate_loop
  operate_all [] acc = none
  operate_all (op ∷ ops) acc = operate_loop (op ∷ ops) acc

  -- The first loop of `AutoMergeFreezeToFree`: the sum so far, and whether it overflowed.
  unfoldable pub free_due : ℤ → List AppCFund → ℕ → Bool × ℕ
  free_due limit [] values = (true, values)
  free_due limit (f ∷ fs) values =
      if leb_ℤ f.height limit
      then elim (checked.safe_add values f.value) [
        | none ↦ (false, values)
        | some sum ↦ free_due limit fs sum
      ]
      else free_due limit fs values

  abbrev merge_at : ℤ → AppUserAccout → Bool × ℕ → Bool × AppUserAccout
  merge_at limit acc (true, values) = (
    true,
    record {
      values = values;
      acc_user_id = acc.acc_user_id;
      freezed_fund = keep_frozen limit acc.freezed_fund;
    },
  )
  merge_at limit acc (false, values) = (false, record acc { values = values })

  unfoldable pub merge_due : ℤ → AppUserAccout → Bool × AppUserAccout
  unfolding free_due keep_frozen
  merge_due limit acc = merge_at limit acc (free_due limit acc.freezed_fund acc.values)

-- From this height on, the funds of contracts registered since are kept by the time of a block.
abbrev pub block_time_4_app_account_height : ℕ
block_time_4_app_account_height = 600000

-- The time of the block at a height, or of the tip above it. A chain is the list of its blocks'
-- times, from the first block on; `none` stands for the tip of an empty one, a null pointer.
unfoldable pub time_at : List ℕ → ℤ → Option ℤ
time_at chain height =
    let tip = length chain - 1 in
    elim (get_elem? chain (if leb_ℤ height (pos tip) then pos_part height else tip)) [
      | none ↦ none
      | some time ↦ some (to_int time)
    ]

-- `nHeightOrTime`
unfoldable pub height_or_time : List ℕ → ℕ → ℤ → Option ℤ
unfolding time_at
height_or_time chain app_height height =
    let since = block_time_4_app_account_height in
    if leb since app_height && leb_ℤ (pos since) height then time_at chain height else some height

unfoldable pub auto_merge_freeze_to_free : CheckedAdd → List ℕ → ℕ → ℤ → AppUserAccout → Outcome
unfolding height_or_time merge_due
auto_merge_freeze_to_free checked chain app_height height acc =
    elim (height_or_time chain app_height height) [
      | none ↦ none
      | some limit ↦ some (merge_due checked limit acc)
    ]
