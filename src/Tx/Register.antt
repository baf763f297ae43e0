-- ===== src/Tx/Register.antt =====
-- Registering an account, and the undo of it (src/tx.cpp: `CRegisterAccountTx::ExecuteTx` and
-- `UndoExecuteTx`).
use dacrs.Base.{
  ℕ, Bool, true, false, not, ◌&&◌, Option, none, some, [], ◌++◌, ◌==◌, if◌then◌else◌, length,
}
use dacrs.Base.Int.{ℤ, pos, pos_part, ltb_ℤ}
use dacrs.RunEnv.Check.{em_minus_free}
use dacrs.Vm.Api.{bytes_of}
use dacrs.Account.{
  ChainParams, Account, AccountLog, KeyId, RegId, PubKey, PubKeys, account_log,
  undo_operate_account, is_empty_value, operate_account,
}
use dacrs.Views.{AccountView, set_account, erase_account}
use dacrs.Views.Batch.{save_account_info}
use dacrs.Views.ByUser.{
  UserId, null_id, by_reg, by_key, by_pub_key, get_account_by, get_key_id_by, erase_id_by,
}
use dacrs.ScriptDb.{Bytes}
use dacrs.Tx.{
  TxState, bad_read_accountdb, duplicate_register_account, not_sufficiect_funds,
  miner_pkey_is_invalid, bad_read_txundoinfo, Outcome, accepted, rejected, and_then, with_view,
  push_log,
}
use dacrs.Tx.Index.{index_user, set_tx_hash}
use dacrs.Tx.Revert.{get_account_oper_log}

-- `CRegID(nHeight, nIndex)`: four bytes and two, low byte first.
abbrev pub reg_id_at : ℕ → ℕ → RegId
reg_id_at height index = bytes_of 4 height ++ bytes_of 2 index

-- `CPubKey::IsValid`
abbrev pub is_valid_size : PubKey → Bool
is_valid_size p = length p == 33

-- `CRegisterAccountTx`, whose user is a public key, as its check demands.
pub record RegisterAccountTx : Type 0 where
  pub user_key : PubKey
  pub miner_id : UserId
  pub fees : ℤ

module _ (keys : PubKeys) (params : ChainParams) (tx : RegisterAccountTx) (height index : ℕ) where
  -- The fees, if there are any.
  abbrev pub charge_fees : Account → Bool × Account
  charge_fees acc =
      if ltb_ℤ (pos 0) tx.fees
      then operate_account params em_minus_free (pos_part tx.fees) (pos height) acc
      else (true, acc)

  abbrev pub with_miner : UserId → Account → Account
  with_miner (by_pub_key p) acc = record acc { miner_pkey = p }
  with_miner null_id acc = acc
  with_miner (by_reg id) acc = acc
  with_miner (by_key k) acc = acc

  abbrev pub bad_miner : UserId → Bool
  bad_miner (by_pub_key p) = is_valid_size p && not (keys.is_fully_valid p)
  bad_miner null_id = false
  bad_miner (by_reg id) = false
  bad_miner (by_key k) = false

  abbrev pub registered : Account → Account
  registered acc = with_miner tx.miner_id (record acc { reg_id = reg_id_at height index })

  abbrev pub save_registered : AccountLog → Bool × Account → TxState → Outcome
  save_registered log (false, acc) s = rejected not_sufficiect_funds s
  save_registered log (true, acc) s =
      if bad_miner tx.miner_id
      then rejected miner_pkey_is_invalid s
      else accepted (
          push_log log (
            with_view
              (save_account_info (reg_id_at height index) (keys.get_key_id tx.user_key)
                (registered acc) s.view)
              s))

  abbrev pub register_found : Option Account × AccountView → TxState → Outcome
  register_found (none, v) s = rejected bad_read_accountdb (with_view v s)
  register_found (some acc, v) s =
      if keys.is_fully_valid acc.public_key
        && keys.get_key_id acc.public_key == keys.get_key_id tx.user_key
      then rejected duplicate_register_account (with_view v s)
      else save_registered (account_log acc) (charge_fees (record acc { public_key = tx.user_key }))
          (with_view v s)

  unfoldable pub register : TxState → Outcome
  register s = register_found (get_account_by keys (by_pub_key tx.user_key) s.view) s

  -- `CRegisterAccountTx::ExecuteTx`
  unfoldable pub execute_register : Bool → Bytes → TxState → Outcome
  execute_register address_to_tx_flag hash s =
      and_then
        (λ t.
          if address_to_tx_flag
          then index_user keys hash height index
              (get_key_id_by keys (by_pub_key tx.user_key) t.view) (set_tx_hash hash t)
          else accepted (set_tx_hash hash t))
        (register s)

  -- An account with money stays, without its keys; one without is erased.
  abbrev pub leave_unregistered : KeyId → Account → TxState → Outcome
  leave_unregistered key acc s =
      let v =
        if not (is_empty_value acc)
        then set_account key (record acc { public_key = []; miner_pkey = [] }) s.view
        else erase_account (keys.get_key_id tx.user_key) s.view in
      accepted (with_view (erase_id_by (by_reg (reg_id_at height index)) v).1 s)

  abbrev pub undo_fees : KeyId → Account → Option AccountLog → TxState → Outcome
  undo_fees key acc none s = rejected bad_read_txundoinfo s
  undo_fees key acc (some log) s = leave_unregistered key (undo_operate_account log acc) s

  -- The key that the id leads to, 0 if it leads to none.
  abbrev pub key_or_null : Option KeyId → KeyId
  key_or_null none = 0
  key_or_null (some key) = key

  abbrev pub unregister_with : Account → Option KeyId × AccountView → TxState → Outcome
  unregister_with acc (found, v) s =
      let key = key_or_null found in
      if ltb_ℤ (pos 0) tx.fees
      then undo_fees key acc (get_account_oper_log key s.undo.account_log) (with_view v s)
      else leave_unregistered key acc (with_view v s)

  abbrev pub unregister_found : Option Account × AccountView → TxState → Outcome
  unregister_found (none, v) s = rejected bad_read_accountdb (with_view v s)
  unregister_found (some acc, v) s =
      unregister_with acc (get_key_id_by keys (by_reg (reg_id_at height index)) v) (with_view v s)

  -- `CRegisterAccountTx::UndoExecuteTx`
  unfoldable pub undo_execute_register : TxState → Outcome
  undo_execute_register s =
      unregister_found (get_account_by keys (by_reg (reg_id_at height index)) s.view) s
