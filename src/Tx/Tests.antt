-- ===== src/Tx/Tests.antt =====
-- The theorems on transfers at a concrete view, and rewards and refusals.
use dacrs.Base.{true, false, [], ◌∷◌, ◌≡◌, refl, arith}
use dacrs.Base.Int.{pos, ◌-ℤ◌}
use dacrs.Base.Dict.{lookup, put}
use dacrs.Account.{
  ChainParams, Account, PubKeys, operate_account, is_money_overflow, money_range, get_max_money,
  up_date_coin_day, minus_money, add_money, grown_coin_day, get_max_coin_day, remain_coin_day,
  keep_miner, account_log, is_empty_value, is_register,
}
use dacrs.Views.{
  AccountViewCache, AccountView, database, cached, get_account, get_key_id_of, set_account,
  set_account_of,
}
use dacrs.Views.Observe.{account_of, key_of, layered, layered_key}
use dacrs.Views.ByUser.{by_reg, by_key, get_account_of, get_account_by, set_account_by}
use dacrs.Views.Identity.{key_by}
use dacrs.Views.Layer.{IsCache}
use dacrs.ScriptDb.{script_db, script_cache}
use dacrs.Tx.{Transaction, TxState, accepted, transfer, account_for}
use dacrs.Tx.Revert.{undo_logs}
use dacrs.Tx.Facts.{Keyed}
use dacrs.Tx.Money.{Low, Paid, transfer-Paid}
use dacrs.Tx.Undo.{NoneMade, Undone, transfer-Undone}

abbrev pub main_net : ChainParams
main_net = record { interval_pos = 1440; regtest = false }

-- Only keys of one byte are points of the curve.
abbrev pub hashes : PubKeys
hashes = record { is_fully_valid = λ p. elim p [ [] ↦ false | _ ↦ true ]; get_key_id = λ p. 5 }

abbrev pub payer : Account
payer = record {
  reg_id = 1 ∷ 2 ∷ [];
  key_id = 5;
  public_key = 3 ∷ [];
  miner_pkey = [];
  values = 1000;
  height = pos 800000;
  coin_day = 0;
}

abbrev pub empty_cache : AccountViewCache
empty_cache = record { cache_accounts = []; cache_key_ids = []; hash_block = 0 }

abbrev base : AccountView
base =
    database (record { accounts = (5, payer) ∷ []; key_ids = (1 ∷ 2 ∷ [], 5) ∷ []; best_block = 0 })

abbrev before : TxState
before = record {
  view = cached empty_cache base;
  script_db = script_cache [] (script_db []);
  undo = record { tx_hash = []; account_log = []; script_oper_log = [] };
}

-- 300 and a fee of 10 to an address that has no account yet.
abbrev payment : Transaction
payment = record {
  tx_type = 3;
  src_reg_id = by_reg (1 ∷ 2 ∷ []);
  des_user_id = by_key 9;
  fees = 10;
  values = 300;
  contract = [];
}

abbrev paid_payer : Account
paid_payer = record payer { values = 690; height = pos 800010; coin_day = 6900 }

abbrev paid_other : Account
paid_other = record (account_for 9) { values = 300; height = pos 800010 }

abbrev after : TxState
after = record {
  view =
      cached
        (record {
          cache_accounts = (5, paid_payer) ∷ (9, paid_other) ∷ [];
          cache_key_ids = (1 ∷ 2 ∷ [], 5) ∷ [];
          hash_block = 0;
        })
        base;
  script_db = script_cache [] (script_db []);
  undo = record {
    tx_hash = [];
    account_log = account_log payer ∷ account_log (account_for 9) ∷ [];
    script_oper_log = [];
  };
}

runs : transfer hashes main_net (pos 800010) payment before ≡ accepted after
unfolding transfer operate_account is_money_overflow money_range get_max_money up_date_coin_day
    minus_money add_money grown_coin_day get_max_coin_day remain_coin_day keep_miner account_log
    get_account get_key_id_of set_account set_account_of get_account_of get_account_by
    set_account_by lookup put ◌-ℤ◌
runs = refl

before-IsCache : IsCache before.view
unfolding lookup
before-IsCache = record { sound = (tt, tt, (λ key. ground arith, λ id. ground arith)); layer = tt }

before-Keyed : Keyed before.view
unfolding account_of layered lookup
before-Keyed = λ key acc e. ground arith

before-Low : Low before.view
unfolding account_of layered lookup
before-Low = λ key acc e. ground arith

before-NoneMade : NoneMade hashes 3 before.view
unfolding account_of layered lookup is_empty_value is_register
before-NoneMade = λ key acc e. ground arith

transfer-Paid_example : Paid hashes main_net (pos 800010) payment before after 5 9
unfolding key_by key_of layered_key lookup
transfer-Paid_example =
    transfer-Paid hashes main_net (pos 800010) payment before after 5 9 (omega arith) before-IsCache
      before-Keyed before-Low (omega arith) (omega arith) refl refl runs

transfer-Undone_example : Undone before.view (undo_logs hashes 3 after.undo.account_log after)
unfolding key_by key_of layered_key lookup
transfer-Undone_example =
    transfer-Undone hashes main_net (pos 800010) payment before after 5 9 (omega arith)
      before-IsCache before-Keyed before-NoneMade refl refl refl refl runs
