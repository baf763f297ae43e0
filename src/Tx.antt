-- ===== src/Tx.antt =====
-- The execution of transfers, contract calls and rewards, and its undo (src/tx.cpp:
-- `CTransaction::ExecuteTx`, `CRewardTransaction::ExecuteTx`, `CBaseTransaction::UndoExecuteTx`).
pub mod Index
pub mod Contract
pub mod Reward
pub mod Revert
pub mod Register
pub mod Entries
pub mod Registering
pub mod Charged
pub mod Registered
pub mod Unregistered
pub mod Transfer
pub mod Facts
pub mod Money
pub mod Undo
mod Tests
mod RegisterTests
use dacrs.Base.{
  ℕ, ◌+◌, ◌%◌, ◌^◌, Bool, true, false, not, ◌&&◌, ◌||◌, Option, none, some, List, [], ◌∷◌, ◌++◌,
  ltb, leb, ◌==◌, if◌then◌else◌,
}
use dacrs.Base.Int.{ℤ, pos, negsuc, ltb_ℤ}
use dacrs.RunEnv.Check.{em_add_free, em_minus_free, reg_height, reg_index}
use dacrs.Account.{
  ChainParams, Account, AccountLog, KeyId, RegId, PubKey, PubKeys, new_account, account_log,
  undo_operate_account, is_empty_value, is_register, operate_account, clear_acc_pos,
}
use dacrs.Views.{AccountView, set_account, erase_account}
use dacrs.Views.ByUser.{
  UserId, null_id, by_reg, by_key, by_pub_key, get_account_by, get_key_id_by, set_account_by,
}
use dacrs.ScriptDb.{Bytes, ScriptDbView, ScriptDbOperLog}
use dacrs.ScriptDb.Data.{
  get_script, undo_script_data, set_tx_hash_by_address, set_tx_rel_accout, erase_tx_rel_accout,
}

abbrev pub em_common_tx : ℕ
em_common_tx = 3

abbrev pub em_contract_tx : ℕ
em_contract_tx = 4

-- `CTransaction`, of the types `EM_COMMON_TX` and `EM_CONTRACT_TX`.
pub record Transaction : Type 0 where
  pub tx_type : ℕ
  pub src_reg_id : UserId
  pub des_user_id : UserId
  pub fees : ℕ
  pub values : ℕ
  pub contract : Bytes

pub record TxUndo : Type 0 where
  pub tx_hash : Bytes
  pub account_log : List AccountLog
  pub script_oper_log : List ScriptDbOperLog

-- What a transaction works on.
pub record TxState : Type 0 where
  pub view : AccountView
  pub script_db : ScriptDbView
  pub undo : TxUndo

-- Why one is refused, by the words that go with the reject code.
pub data Reason : Type 0 where
  bad_read_accountdb : Reason
  operate_minus_account_failed : Reason
  operate_add_account_failed : Reason
  bad_save_account : Reason
  bad_read_account : Reason
  run_script_error : Reason
  bad_account : Reason
  no_reason : Reason
  bad_save_scriptdb : Reason
  duplicate_register_account : Reason
  not_sufficiect_funds : Reason
  miner_pkey_is_invalid : Reason
  bad_read_txundoinfo : Reason

-- A refusal keeps what was done before it.
pub data Outcome : Type 0 where
  accepted : TxState → Outcome
  rejected : Reason → TxState → Outcome

-- The next step, if the one before is accepted.
abbrev pub and_then : (TxState → Outcome) → Outcome → Outcome
and_then step (accepted s) = step s
and_then step (rejected reason s) = rejected reason s

abbrev pub with_view : AccountView → TxState → TxState
with_view v s = record s { view = v }

abbrev pub push_log : AccountLog → TxState → TxState
push_log log s = record s { undo = record s.undo { account_log = s.undo.account_log ++ log ∷ [] } }

abbrev pub push_script_log : ScriptDbOperLog → TxState → TxState
push_script_log log s = record s {
  undo = record s.undo { script_oper_log = s.undo.script_oper_log ++ log ∷ [] };
}

-- The account of an address that is not known yet, and its log.
abbrev pub account_for : KeyId → Account
account_for key = record new_account { key_id = key }

module _ (keys : PubKeys) (params : ChainParams) (height : ℤ) (tx : Transaction) where
  abbrev pub minus_value : ℕ
  minus_value = (tx.fees + tx.values) % 2 ^ 64

  abbrev pub save_destination : AccountLog → AccountLog → Bool × Account → TxState → Outcome
  save_destination src_log des_log (false, des) s = rejected operate_add_account_failed s
  save_destination src_log des_log (true, des) s =
      let (ok, v) = set_account_by keys tx.des_user_id des s.view in
      if ok
      then accepted (push_log des_log (push_log src_log (with_view v s)))
      else rejected bad_save_account (with_view v s)

  -- An address gets a new account, from a transfer.
  abbrev pub receive_new : AccountLog → UserId → TxState → Outcome
  receive_new src_log null_id s = rejected bad_read_accountdb s
  receive_new src_log (by_reg id) s = rejected bad_read_accountdb s
  receive_new src_log (by_pub_key p) s = rejected bad_read_accountdb s
  receive_new src_log (by_key k) s =
      if tx.tx_type == em_common_tx
      then save_destination src_log (account_log (account_for k))
          (operate_account params em_add_free tx.values height (account_for k)) s
      else rejected bad_read_accountdb s

  -- The account that receives.
  abbrev pub receive : AccountLog → Option Account × AccountView → TxState → Outcome
  receive src_log (some des, v) s =
      save_destination src_log (account_log des)
        (operate_account params em_add_free tx.values height des) (with_view v s)
  receive src_log (none, v) s = receive_new src_log tx.des_user_id (with_view v s)

  abbrev pub save_source : AccountLog → Bool × Account → TxState → Outcome
  save_source src_log (false, src) s = rejected operate_minus_account_failed s
  save_source src_log (true, src) s =
      let v = set_account src.key_id src s.view in
      receive src_log (get_account_by keys tx.des_user_id v) (with_view v s)

  abbrev pub send : Option Account × AccountView → TxState → Outcome
  send (none, v) s = rejected bad_read_accountdb (with_view v s)
  send (some src, v) s =
      save_source (account_log src) (operate_account params em_minus_free minus_value height src)
        (with_view v s)

  -- `ExecuteTx` up to where a contract would run: the transfer itself.
  unfoldable pub transfer : TxState → Outcome
  transfer s = send (get_account_by keys tx.src_reg_id s.view) s
