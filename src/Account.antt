-- ===== src/Account.antt =====
-- The account of the chain, its log and its operations (src/tx.h and src/tx.cpp: `CAccount`,
-- `CAccountLog`; src/core.h: `MoneyRange`).
pub mod Money
pub mod CoinDays
pub mod Undo
mod Tests
use dacrs.Base.{
  ℕ, ◌+◌, ◌-◌, ◌*◌, ◌/◌, ◌%◌, ◌^◌, Bool, true, false, not, ◌&&◌, List, [], ltb, leb, ◌==◌,
  if◌then◌else◌, suc, zero,
}
use dacrs.Base.Int.{ℤ, pos, ltb_ℤ, leb_ℤ, pos_part, ◌-ℤ◌}
use dacrs.Vm.Run.{to_int64}
use dacrs.RunEnv.Check.{em_add_free, em_minus_free}

-- What the code reads of `SysCfg()`: the blocks of a day, and whether this is the test network
-- with its larger supply.
pub record ChainParams : Type 0 where
  pub interval_pos : ℕ
  pub regtest : Bool

-- `COIN`
abbrev pub coin : ℕ
coin = 100000000

unfoldable pub get_max_money : ChainParams → ℕ
get_max_money params = if params.regtest then 20 * (1000000000 * coin) else 1000000000 * coin

unfoldable pub money_range : ChainParams → ℤ → Bool
money_range params value = leb_ℤ (pos 0) value && leb_ℤ value (pos (get_max_money params))

-- A `CKeyID` is the number of its 160 bits, 0 that of no account. A `CRegID` is the bytes that
-- `GetVec6` returns, and a `CPubKey` its bytes.
abbrev pub KeyId : Type 0
KeyId = ℕ

abbrev pub RegId : Type 0
RegId = List ℕ

abbrev pub PubKey : Type 0
PubKey = List ℕ

pub record Account : Type 0 where
  pub reg_id : RegId
  pub key_id : KeyId
  pub public_key : PubKey
  pub miner_pkey : PubKey
  pub values : ℕ
  pub height : ℤ
  pub coin_day : ℕ

-- `CAccount()`
abbrev pub new_account : Account
new_account = record {
  reg_id = [];
  key_id = 0;
  public_key = [];
  miner_pkey = [];
  values = 0;
  height = pos 0;
  coin_day = 0;
}

pub record AccountLog : Type 0 where
  pub key_id : KeyId
  pub values : ℕ
  pub height : ℤ
  pub coin_day : ℕ

-- `CAccountLog(acct)` and `SetValue`
unfoldable pub account_log : Account → AccountLog
account_log acc = record {
  key_id = acc.key_id;
  values = acc.values;
  height = acc.height;
  coin_day = acc.coin_day;
}

unfoldable pub undo_operate_account : AccountLog → Account → Account
undo_operate_account log acc = record acc {
  values = log.values;
  height = log.height;
  coin_day = log.coin_day;
}

unfoldable pub is_empty_value : Account → Bool
is_empty_value acc = not (ltb 0 acc.values)

-- What the code asks of the cryptographic library: whether the bytes are a point of the curve,
-- and the hash that names a key.
pub record PubKeys : Type 0 where
  pub is_fully_valid : PubKey → Bool
  pub get_key_id : PubKey → KeyId

unfoldable pub is_register : PubKeys → Account → Bool
is_register keys acc =
    keys.is_fully_valid acc.public_key && keys.get_key_id acc.public_key == acc.key_id

abbrev pub block_remain_coin_day_height : ℤ
block_remain_coin_day_height = pos 731400

-- The coin days left after `value` is taken: before the change of the rule by whole multiples of
-- the balance, on uint64_t; after it in proportion, on 256 bits.
unfoldable pub remain_coin_day : ℤ → ℕ → Account → ℕ
remain_coin_day cur value acc =
    if ltb_ℤ cur block_remain_coin_day_height
    then (acc.coin_day + 2 ^ 64 - value / acc.values * acc.coin_day % 2 ^ 64) % 2 ^ 64
    else acc.coin_day * (acc.values - value) % 2 ^ 256 / acc.values % 2 ^ 64

module _ (params : ChainParams) where
  -- `true` is a value in range, despite the name.
  unfoldable pub is_money_overflow : ℕ → Bool
  is_money_overflow add_money = money_range params (to_int64 add_money)

  unfoldable pub get_max_coin_day : Account → ℕ
  get_max_coin_day acc = acc.values * (params.interval_pos * 30) % 2 ^ 64

  -- `m_ullCoinDay += m_ullValues * (nCurHeight - m_nHeight)`, on uint64_t.
  unfoldable pub grown_coin_day : ℤ → Account → ℕ
  grown_coin_day cur acc =
      (acc.coin_day + acc.values * pos_part (cur -ℤ acc.height) % 2 ^ 64) % 2 ^ 64

  unfoldable pub up_date_coin_day : ℤ → Account → Bool × Account
  up_date_coin_day cur acc =
      if ltb_ℤ cur acc.height
      then (false, acc)
      else (if leb_ℤ cur acc.height then (true, acc) else (
        true,
        record acc {
          coin_day =
              if ltb (get_max_coin_day acc) (grown_coin_day cur acc)
              then get_max_coin_day acc
              else grown_coin_day cur acc;
          height = cur;
        },
      ))

  unfoldable pub clear_acc_pos : ℤ → Account → Account
  clear_acc_pos cur acc = record (up_date_coin_day cur acc).1 { coin_day = 0 }

  unfoldable pub get_account_pos : ℤ → Account → ℕ × Account
  get_account_pos cur acc = let acc' = (up_date_coin_day cur acc).1 in (acc'.coin_day, acc')

  unfoldable pub is_miner : ℤ → Account → Bool
  is_miner cur acc =
      if ltb_ℤ cur (pos (2 * params.interval_pos))
      then true
      else leb (acc.values * params.interval_pos % 2 ^ 64) acc.coin_day

  -- An account with the coin days of a miner keeps as many as a miner needs.
  unfoldable pub keep_miner : Account → ℕ → ℕ
  keep_miner acc remain =
      let need = acc.values * params.interval_pos % 2 ^ 64 in
      if ltb need acc.coin_day && ltb remain need then need else remain

  unfoldable pub add_money : ℕ → Account → Bool × Account
  add_money value acc =
      let sum = (acc.values + value) % 2 ^ 64 in
      (is_money_overflow sum, record acc { values = sum })

  unfoldable pub minus_money : ℤ → ℕ → Account → Bool × Account
  minus_money cur value acc = if ltb acc.values value then (false, acc) else (
    true,
    record acc {
      coin_day = keep_miner acc (remain_coin_day cur value acc);
      values = acc.values - value;
    },
  )

  -- The test of the result of `UpDateCoinDay` compares a bool with 0 and never holds, so that the
  -- operation goes on at any height.
  unfoldable pub operate_account : ℕ → ℕ → ℤ → Account → Bool × Account
  operate_account type value cur acc =
      let acc' = (up_date_coin_day cur acc).1 in
      if not (is_money_overflow value)
      then (false, acc)
      else (if acc'.key_id == 0
          then (false, acc')
          else (if value == 0
              then (true, acc')
              else (if type == em_add_free
                  then add_money value acc'
                  else (if type == em_minus_free
                      then minus_money cur value acc'
                      else (false, acc')))))
