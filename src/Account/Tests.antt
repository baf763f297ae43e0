-- ===== src/Account/Tests.antt =====
-- The theorems on accounts at concrete accounts and operations.
use dacrs.Base.{◌-◌, ◌*◌, ◌^◌, ◌≡◌, refl, arith, true, false, [], ◌∷◌}
use dacrs.Base.Int.{pos, ◌-ℤ◌}
use dacrs.RunEnv.Check.{em_add_free, em_minus_free}
use dacrs.Account.{
  ChainParams, Account, account_log, undo_operate_account, operate_account, up_date_coin_day,
  is_money_overflow, money_range, get_max_money, minus_money, get_max_coin_day, grown_coin_day,
  remain_coin_day, keep_miner,
}
use dacrs.Account.Money.{Moved, operate_account-Moved}
use dacrs.Account.Undo.{undo-operate_account}
use dacrs.Account.CoinDays.{Spent, operate_account-Spent, up_date_coin_day-twice}

abbrev main_net : ChainParams
main_net = record { interval_pos = 1440; regtest = false }

-- 500 units, last touched at height 800000, with the coin days of three days.
abbrev saver : Account
saver = record {
  reg_id = 1 ∷ 0 ∷ 0 ∷ 0 ∷ 1 ∷ 0 ∷ [];
  key_id = 77;
  public_key = 2 ∷ [];
  miner_pkey = [];
  values = 500;
  height = pos 800000;
  coin_day = 2160000;
}

operate_account-Moved_example :
    Moved main_net em_minus_free 200 saver
      (operate_account main_net em_minus_free 200 (pos 800100) saver)
operate_account-Moved_example =
    operate_account-Moved main_net em_minus_free 200 (pos 800100) saver (omega arith) (omega arith)

undo-operate_account_example :
    undo_operate_account
      (account_log saver)
      (operate_account main_net em_add_free 200 (pos 800100) saver).1
    ≡ saver
undo-operate_account_example = undo-operate_account main_net em_add_free 200 (pos 800100) saver

paid :
    operate_account main_net em_minus_free 200 (pos 800100) saver
    ≡ (true, record saver { values = 300; height = pos 800100; coin_day = 1326000 })
unfolding operate_account is_money_overflow money_range get_max_money up_date_coin_day minus_money
    grown_coin_day get_max_coin_day remain_coin_day keep_miner ◌-ℤ◌
paid = refl

operate_account-Spent_example :
    Spent main_net
      (pos 800100)
      (up_date_coin_day main_net (pos 800100) saver).1
      (record saver { values = 300; height = pos 800100; coin_day = 1326000 })
operate_account-Spent_example =
    operate_account-Spent main_net 200 (pos 800100) saver _ (omega arith) paid

up_date_coin_day-twice_example :
    up_date_coin_day main_net (pos 800500) (up_date_coin_day main_net (pos 800100) saver).1
    ≡ up_date_coin_day main_net (pos 800500) saver
unfolding ◌-ℤ◌
up_date_coin_day-twice_example =
    up_date_coin_day-twice main_net (pos 800100) (pos 800500) saver refl refl (omega arith)
      (omega arith)

-- The old rule keeps all the coin days of a payment below the balance.
paid_early :
    (operate_account main_net em_minus_free 200
      (pos 700000)
      (record saver { height = pos 700000 })).1.coin_day
    ≡ 2160000
unfolding operate_account is_money_overflow money_range get_max_money up_date_coin_day minus_money
    grown_coin_day get_max_coin_day remain_coin_day keep_miner ◌-ℤ◌
paid_early = refl

-- The limit of a balance of ten million coins exceeds an uint64_t.
limit_wraps :
    get_max_coin_day main_net (record saver { values = 1000000000000000 })
    ≡ 1000000000000000 * 43200 - 2 * 2 ^ 64
unfolding get_max_coin_day
limit_wraps = refl
