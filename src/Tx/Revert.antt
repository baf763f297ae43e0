-- ===== src/Tx/Revert.antt =====
-- Undoing a transaction (src/tx.cpp: `CBaseTransaction::UndoExecuteTx`, `CTxUndo`).
use dacrs.Base.{
  ℕ, Bool, true, false, not, ◌&&◌, Option, none, some, List, [], ◌∷◌, ◌==◌, if◌then◌else◌,
}
use dacrs.Account.{
  Account, AccountLog, KeyId, PubKeys, undo_operate_account, is_empty_value, is_register,
}
use dacrs.Views.{AccountView, set_account, erase_account}
use dacrs.Views.ByUser.{by_key, get_account_by}
use dacrs.ScriptDb.{Bytes, ScriptDbView, ScriptDbOperLog}
use dacrs.ScriptDb.Data.{undo_script_data, erase_tx_rel_accout}
use dacrs.Tx.{
  TxState, bad_read_accountdb, bad_save_scriptdb, Outcome, accepted, rejected, and_then, with_view,
  em_common_tx, em_contract_tx,
}

-- `CTxUndo::GetAccountOperLog`: the first log of the key.
unfoldable pub get_account_oper_log : KeyId → List AccountLog → Option AccountLog
get_account_oper_log key [] = none
get_account_oper_log key (log ∷ logs) =
    let rest = get_account_oper_log key logs in if log.key_id == key then some log else rest

module _ (keys : PubKeys) (tx_type : ℕ) where
  -- An account without money that a transfer has made is erased again.
  abbrev pub put_back : KeyId → Account → TxState → Outcome
  put_back key acc s =
      if tx_type == em_common_tx && is_empty_value acc && not (is_register keys acc)
      then accepted (with_view (erase_account key s.view) s)
      else accepted (with_view (set_account key acc s.view) s)

  abbrev pub undo_log : AccountLog → Option Account × AccountView → TxState → Outcome
  undo_log log (none, v) s = rejected bad_read_accountdb (with_view v s)
  undo_log log (some acc, v) s = put_back log.key_id (undo_operate_account log acc) (with_view v s)

  -- The loop over the accounts, the last one first: the logs after the first, and then that one.
  unfoldable pub undo_logs : List AccountLog → TxState → Outcome
  undo_logs [] s = accepted s
  undo_logs (log ∷ logs) s =
      and_then (λ t. undo_log log (get_account_by keys (by_key log.key_id) t.view) t)
        (undo_logs logs s)

  abbrev pub undo_script : Option (Bool × ScriptDbView) → TxState → Option Outcome
  undo_script none s = none
  undo_script (some (true, d)) s = some (accepted (record s { script_db = d }))
  undo_script (some (false, d)) s = some (rejected bad_save_scriptdb (record s { script_db = d }))

  abbrev pub then_script : ScriptDbOperLog → Option Outcome → Option Outcome
  then_script log none = none
  then_script log (some (rejected reason s)) = some (rejected reason s)
  then_script log (some (accepted s)) =
      undo_script (undo_script_data log.key log.value s.script_db) s

  -- The loop over the data, the last change first; none where an assertion fails.
  unfoldable pub undo_script_logs : List ScriptDbOperLog → Outcome → Option Outcome
  undo_script_logs [] s = some s
  undo_script_logs (log ∷ logs) s = then_script log (undo_script_logs logs s)

  abbrev pub forget_related : Bytes → Option Outcome → Option Outcome
  forget_related hash none = none
  forget_related hash (some (rejected reason s)) = some (rejected reason s)
  forget_related hash (some (accepted s)) = some (
      accepted (
        if tx_type == em_contract_tx
        then record s { script_db = erase_tx_rel_accout hash s.script_db }
        else s))

  -- `UndoExecuteTx`, with the hash of the transaction.
  unfoldable pub undo_execute_tx : Bytes → TxState → Option Outcome
  undo_execute_tx hash s =
      forget_related hash (undo_script_logs s.undo.script_oper_log (undo_logs s.undo.account_log s))
