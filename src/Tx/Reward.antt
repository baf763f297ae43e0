-- ===== src/Tx/Reward.antt =====
-- Rewards (src/tx.cpp: `CRewardTransaction::ExecuteTx`).
use dacrs.Base.{
  ℕ, zero, ◌+◌, ◌%◌, ◌^◌, Bool, true, false, ◌&&◌, Option, none, some, [], ◌∷◌, if◌then◌else◌,
}
use dacrs.Base.Int.{ℤ, pos, negsuc}
use dacrs.Account.{ChainParams, Account, PubKeys, account_log, clear_acc_pos}
use dacrs.Views.{AccountView, set_account}
use dacrs.Views.ByUser.{UserId, null_id, by_reg, by_key, by_pub_key, get_account_by, get_key_id_by}
use dacrs.ScriptDb.{Bytes}
use dacrs.Tx.{
  TxState, bad_read_accountdb, bad_account, no_reason, Outcome, accepted, rejected, and_then,
  with_view,
}
use dacrs.Tx.Index.{index_user, set_tx_hash}

-- `CRewardTransaction`
pub record RewardTransaction : Type 0 where
  pub account : UserId
  pub reward_value : ℕ

abbrev pub is_reg : UserId → Bool
is_reg (by_reg id) = true
is_reg null_id = false
is_reg (by_key k) = false
is_reg (by_pub_key p) = false

module _ (keys : PubKeys) (params : ChainParams) (address_to_tx_flag : Bool) where
  -- The account after a reward: the block's own clears the coin days, one that has matured is paid.
  abbrev pub rewarded : RewardTransaction → ℤ → ℤ → Account → Option Account
  rewarded tx height (pos zero) acc = some (clear_acc_pos params height acc)
  rewarded tx height (negsuc zero) acc =
      some (record acc { values = (acc.values + tx.reward_value) % 2 ^ 64 })
  rewarded tx height _ acc = none

  abbrev pub save_reward : Account → Option Account → TxState → Outcome
  save_reward acc none s = rejected no_reason s
  save_reward acc (some acc') s = accepted (record s {
    view = set_account acc'.key_id acc' s.view;
    undo = record { tx_hash = []; account_log = account_log acc ∷ []; script_oper_log = [] };
  })

  abbrev pub pay_reward :
      RewardTransaction → ℤ → ℤ → Option Account × AccountView → TxState → Outcome
  pay_reward tx height index (none, v) s = rejected bad_read_accountdb (with_view v s)
  pay_reward tx height index (some acc, v) s =
      save_reward acc (rewarded tx height index acc) (with_view v s)

  abbrev pub is_first : ℤ → Bool
  is_first (pos zero) = true
  is_first _ = false

  -- `CRewardTransaction::ExecuteTx`, at an index of 0 or -1.
  unfoldable pub execute_reward : RewardTransaction → Bytes → ℕ → ℤ → TxState → Outcome
  execute_reward tx hash height index s =
      if is_reg tx.account
      then and_then
          (λ t.
            if address_to_tx_flag && is_first index
            then index_user keys hash height 0 (get_key_id_by keys tx.account t.view)
                (set_tx_hash hash t)
            else accepted (set_tx_hash hash t))
          (pay_reward tx (pos height) index (get_account_by keys tx.account s.view) s)
      else rejected bad_account s
