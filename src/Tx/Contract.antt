-- ===== src/Tx/Contract.antt =====
-- Contract calls, and `CTransaction::ExecuteTx` as a whole (src/tx.cpp).
use dacrs.Base.{
  ℕ, Bool, false, ◌&&◌, ◌||◌, Option, none, some, List, [], ◌∷◌, ◌++◌, ◌==◌, if◌then◌else◌,
}
use dacrs.Base.Int.{ℤ, pos, ltb_ℤ}
use dacrs.RunEnv.Check.{reg_height, reg_index}
use dacrs.Account.{ChainParams, Account, KeyId, RegId, PubKeys, account_log}
use dacrs.Views.{AccountView, set_account}
use dacrs.Views.ByUser.{by_reg, by_key, get_account_by, get_key_id_by}
use dacrs.ScriptDb.{Bytes, ScriptDbView, ScriptDbOperLog}
use dacrs.ScriptDb.Data.{get_script, set_tx_rel_accout}
use dacrs.Tx.{
  Transaction, TxState, bad_read_accountdb, bad_read_account, run_script_error, Outcome, accepted,
  rejected, and_then, with_view, push_log, account_for, em_contract_tx, transfer,
}
use dacrs.Tx.Index.{index_both, set_tx_hash}

-- What `CVmRunEvn::run` gives: whether it succeeded, the accounts to write, the log of the changes
-- to the data, the bytes of the accounts that the transaction touches, and the views after it.
pub record RunResult : Type 0 where
  pub ok : Bool
  pub new_account : List Account
  pub db_log : List ScriptDbOperLog
  pub related : Bytes
  pub view : AccountView
  pub script_db : ScriptDbView

abbrev pub limite_app_height : ℤ
limite_app_height = pos 189000

-- `listBlockAppId`
abbrev pub list_block_app_id : List (ℕ × ℕ)
list_block_app_id = (97560, 1) ∷ (96298, 1) ∷ (96189, 1) ∷ (95130, 1) ∷ (93694, 1) ∷ []

abbrev pub is_listed : RegId → List (ℕ × ℕ) → Bool
is_listed id [] = false
is_listed id ((height, index) ∷ rest) =
    (reg_height id == height && reg_index id == index) || is_listed id rest

module _ (keys : PubKeys) (run : Transaction → ℤ → AccountView → ScriptDbView → RunResult)
    (tx : Transaction) (hash : Bytes) (height : ℤ) where
  -- The log is of the account as it was, or of a new one for an address.
  abbrev pub old_account : KeyId → Option Account → Option Account
  old_account key (some acc) = some acc
  old_account key none = if key == 0 then none else some (account_for key)

  abbrev pub write_new_account : Account → Option Account × AccountView → TxState → Outcome
  write_new_account acc (found, v) s = elim (old_account acc.key_id found) [
    | none ↦ rejected bad_read_accountdb (with_view v s)
    | some old ↦ accepted (push_log (account_log old) (with_view (set_account acc.key_id acc v) s))
  ]

  -- The loop over the accounts that the contract has changed.
  unfoldable pub write_new_accounts : List Account → TxState → Outcome
  write_new_accounts [] s = accepted s
  write_new_accounts (acc ∷ accs) s =
      and_then (write_new_accounts accs)
        (write_new_account acc (get_account_by keys (by_key acc.key_id) s.view) s)

  abbrev pub push_script_logs : List ScriptDbOperLog → TxState → TxState
  push_script_logs logs s = record s {
    undo = record s.undo { script_oper_log = s.undo.script_oper_log ++ logs };
  }

  abbrev pub save_related : Bytes → TxState → Outcome
  save_related related s =
      accepted (record s { script_db = set_tx_rel_accout hash related s.script_db })

  abbrev pub after_run : RunResult → TxState → Outcome
  after_run result s =
      let s' = record s { view = result.view; script_db = result.script_db } in
      if result.ok
      then and_then (save_related result.related) (
          and_then (λ t. accepted (push_script_logs result.db_log t))
            (write_new_accounts result.new_account s'))
      else rejected run_script_error s'

  abbrev pub with_script : Option Bytes × ScriptDbView → TxState → Outcome
  with_script (none, d) s = rejected bad_read_account (record s { script_db = d })
  with_script (some script, d) s = after_run (run tx height s.view d) (record s { script_db = d })

  -- The part of `ExecuteTx` for `EM_CONTRACT_TX`.
  unfoldable pub call_contract : TxState → Outcome
  call_contract s = elim tx.des_user_id [
    | by_reg id ↦
        if ltb_ℤ limite_app_height height && is_listed id list_block_app_id
        then rejected bad_read_account s
        else with_script (get_script id s.script_db) s
    | _ ↦ rejected bad_read_account s
  ]

module _ (keys : PubKeys) (params : ChainParams) (address_to_tx_flag : Bool)
    (run : Transaction → ℤ → AccountView → ScriptDbView → RunResult) where
  -- `CTransaction::ExecuteTx`, with the hash of the transaction.
  unfoldable pub execute_tx : Transaction → Bytes → ℕ → ℕ → TxState → Outcome
  execute_tx tx hash height index s =
      and_then
        (λ t.
          if address_to_tx_flag
          then index_both keys hash height index tx.des_user_id
              (get_key_id_by keys tx.src_reg_id t.view) (set_tx_hash hash t)
          else accepted (set_tx_hash hash t))
        (and_then
          (λ t.
            if tx.tx_type == em_contract_tx
            then call_contract keys run tx hash (pos height) t
            else accepted t)
          (transfer keys params (pos height) tx s))
