-- ===== src/Tx/RegisterTests.antt =====
-- Registering an account and its undo at a concrete view.
use dacrs.Base.{some, [], ◌∷◌, ◌≡◌, refl, arith}
use dacrs.Base.Int.{pos, ◌-ℤ◌}
use dacrs.Base.Dict.{lookup, put}
use dacrs.Account.{
  Account, operate_account, is_money_overflow, money_range, get_max_money, up_date_coin_day,
  minus_money, grown_coin_day, get_max_coin_day, remain_coin_day, keep_miner, account_log,
  is_empty_value,
}
use dacrs.Views.{AccountView, database, cached, get_account}
use dacrs.Views.Observe.{account_of, layered}
use dacrs.Views.Batch.{save_account_info}
use dacrs.Views.ByUser.{by_pub_key, get_account_by}
use dacrs.Views.Layer.{IsCache}
use dacrs.ScriptDb.{script_db, script_cache}
use dacrs.Tx.{TxState, accepted}
use dacrs.Tx.Register.{RegisterAccountTx, reg_id_at, register, undo_execute_register}
use dacrs.Tx.Registered.{Registered, register-Registered}
use dacrs.Tx.Registering.{left}
use dacrs.Tx.Unregistered.{Dropped, register-Dropped}
use dacrs.Tx.Tests.{main_net, hashes, payer, empty_cache}

abbrev newcomer : Account
newcomer = record payer { reg_id = []; public_key = [] }

abbrev stored : AccountView
stored = database (record { accounts = (5, newcomer) ∷ []; key_ids = []; best_block = 0 })

abbrev start : TxState
start = record {
  view = cached empty_cache stored;
  script_db = script_cache [] (script_db []);
  undo = record { tx_hash = []; account_log = []; script_oper_log = [] };
}

abbrev registration : RegisterAccountTx
registration = record { user_key = 3 ∷ []; miner_id = by_pub_key (4 ∷ []); fees = pos 10 }

abbrev newly_registered : Account
newly_registered = record payer {
  reg_id = reg_id_at 800010 1;
  public_key = 3 ∷ [];
  miner_pkey = 4 ∷ [];
  values = 990;
  height = pos 800010;
  coin_day = 9900;
}

abbrev done : TxState
done = record {
  view =
      cached
        (record {
          cache_accounts = (5, newly_registered) ∷ [];
          cache_key_ids = (reg_id_at 800010 1, 5) ∷ [];
          hash_block = 0;
        })
        stored;
  script_db = script_cache [] (script_db []);
  undo = record { tx_hash = []; account_log = account_log newcomer ∷ []; script_oper_log = [] };
}

registers : register hashes main_net registration 800010 1 start ≡ accepted done
unfolding register operate_account is_money_overflow money_range get_max_money up_date_coin_day
    minus_money grown_coin_day get_max_coin_day remain_coin_day keep_miner account_log get_account
    get_account_by save_account_info lookup put ◌-ℤ◌
registers = refl

start-IsCache : IsCache start.view
unfolding lookup
start-IsCache = record { sound = (tt, tt, (λ key. ground arith, λ id. ground arith)); layer = tt }

register-Registered_example : Registered hashes main_net registration 800010 1 start done newcomer
unfolding account_of layered lookup
register-Registered_example =
    register-Registered hashes main_net registration 800010 1 start done newcomer start-IsCache refl
      refl registers

register-Dropped_example :
    Dropped 5
      (some (left (reg_id_at 800010 1) newcomer))
      (reg_id_at 800010 1)
      start.view
      (undo_execute_register hashes main_net registration 800010 1 done)
unfolding account_of layered lookup is_empty_value
register-Dropped_example =
    register-Dropped hashes main_net registration 800010 1 start done newcomer start-IsCache refl
      refl refl registers
